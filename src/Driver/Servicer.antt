-- ===== src/Driver/Servicer.antt =====
-- `DriverServicer` of mesh/driver/server.py: what the driver makes of an agent's calls. The first
-- group acts on the cluster, the second on the job manager, whose `tasks` are the cluster's. Log
-- entries are left out.
pub mod Wire
pub mod Ends
pub mod Alive
use Prim.Native.String.{◌++◌}
use cluster_mesh.Prelude.{
  ℕ, zero, suc, String, Bool, true, false, Option, none, some, List, [], ◌∷◌, ◌==◌, if◌then◌else◌,
}
use cluster_mesh.Prelude.Int.{ℤ, pos, negsuc}
use cluster_mesh.Prelude.Dict.{Dict, get, put}
use cluster_mesh.Models.{
  Node, NodeResources, NodeState, healthy, preempted, ResourcePool, TaskSpec, completed, failed,
  Job,
}
use cluster_mesh.Health.Registry
use cluster_mesh.Recovery.Checkpoints.{save}
use cluster_mesh.Jobs.Manager.{JobManager, Cancels, set_task, find_job_for_task}
use cluster_mesh.Jobs.Outcome.{on_task_complete, on_task_failed}
use cluster_mesh.Agent.Client.{ResourceReport, TaskCompleteReport, null}
use cluster_mesh.Driver.Cluster.{
  Cluster, DriverCluster, on_state_change, register_node, update_node_resources, update_node_state,
}

-- `msg.battery_pct if msg.battery_pct >= 0 else None`
abbrev battery_of : ℤ → Option ℕ
battery_of (pos pct) = some pct
battery_of (negsuc n) = none

unfoldable pub snapshot_to_resources : ResourceReport → NodeResources
snapshot_to_resources msg = record {
  cpu_cores_total = msg.cpu_cores_total;
  cpu_cores_free = msg.cpu_cores_free;
  ram_gb_total = msg.ram_gb_total;
  ram_gb_free = msg.ram_gb_free;
  gpu_count = msg.gpu_count;
  vram_gb_free = msg.vram_gb_free;
  cuda_version = msg.cuda_version;
  network_gbps = msg.network_gbps;
  battery_pct = battery_of msg.battery_pct;
  cpu_utilization = msg.cpu_utilization;
  user_active = msg.user_active;
}

pub record RegisterRequest : Type 0 where
  pub node_id : String
  pub hostname : String
  pub os_name : String
  pub location : String
  pub preemptible : Bool
  pub resources : ResourceReport
  pub libraries : List String

-- `",".join(libraries[:n])`
unfoldable pub joined : ℕ → List String → String
joined zero names = ""
joined (suc n) [] = ""
joined (suc n) (name ∷ []) = name
joined (suc zero) (name ∷ next ∷ names) = name
joined (suc (suc n)) (name ∷ next ∷ names) = name ++ ("," ++ joined (suc n) (next ∷ names))

abbrev tags_of : RegisterRequest → Dict String
tags_of request =
    let metrics = request.resources.host_metrics_json in
    let tags = ("os", request.os_name) ∷ ("libraries", joined 100 request.libraries) ∷ [] in
    if metrics == "" then tags else put "host_metrics" metrics tags

-- The node that RegisterNode makes.
unfoldable pub node_of : RegisterRequest → Node
unfolding snapshot_to_resources joined
node_of request = record {
  node_id = request.node_id;
  hostname = request.hostname;
  resources = snapshot_to_resources request.resources;
  state = healthy;
  reliability_score = if request.preemptible then 700 else 900;
  latency_score = 900;
  pool = if request.preemptible then ResourcePool.night else ResourcePool.cpu;
  preemptible = request.preemptible;
  location = if request.location == "" then "default" else request.location;
  tags = tags_of request;
}

unfoldable pub register_node_handler : ℕ → RegisterRequest → Cluster → Cluster
unfolding node_of register_node
register_node_handler now request env = register_node now (node_of request) true env

-- The answer is the node's state.
unfoldable pub heartbeat : (String → Cluster → Cluster) → ℕ → String → Cluster → NodeState × Cluster
unfolding on_state_change
heartbeat handle_node_death now node_id env =
    Registry.record_heartbeat (on_state_change handle_node_death ∷ []) now node_id env

unfoldable pub report_resources : ResourceReport → Cluster → Cluster
unfolding snapshot_to_resources update_node_resources
report_resources request env =
    update_node_resources request.node_id (snapshot_to_resources request) request.host_metrics_json
      env

-- `handle_preemption` is the job manager's.
unfoldable pub preemption_warning : (String → Cluster → Cluster) → String → Cluster → Cluster
unfolding update_node_state
preemption_warning handle_preemption node_id env =
    handle_preemption node_id (update_node_state node_id preempted env)

pub record TaskProgressReport : Type 0 where
  pub task_id : String
  pub progress : ℕ
  pub state_json : String

-- `loads` is `json.loads` of an object of texts.
unfoldable pub task_progress :
    (String → Dict String) → ℕ → TaskProgressReport → JobManager → JobManager
unfolding save
task_progress loads now request m = elim (get request.task_id m.tasks) [
  | none ↦ m
  | some task ↦
      (let task' : TaskSpec = record task {
        progress = request.progress;
        state_data = if request.state_json == "" then task.state_data else loads request.state_json;
      } in
        let (_, cps) = save task' (some task'.state_data) now m.checkpoints in
        record (set_task task' m) { checkpoints = cps })
]

-- `json.loads(request.result_json) if request.result_json else None`
abbrev pub result_of : TaskCompleteReport → String
result_of request = if request.result_json == "" then null else request.result_json

-- `self.job_manager._on_task_complete(…)` or `_on_task_failed(…)`, on the job that was found, with the
-- text of an exception.
unfoldable pub settle :
    Cancels → TaskCompleteReport → TaskSpec → Option Job → JobManager → Option String × JobManager
unfolding on_task_complete on_task_failed
settle cancels request task none m = (none, m)
settle cancels request task (some job) m =
    if request.success
    then on_task_complete cancels task job (result_of request) m
    else (none, on_task_failed task job request.error m)

-- How a call of TaskComplete ends: with `ok` of the Ack, or as a failed call.
pub data Ending : Type 0 where
  acked : (ok : Bool) → Ending
  raised : (exc : String) → Ending

abbrev acked_or : Option String → Ending
acked_or none = acked true
acked_or (some exc) = raised exc

-- The rest of TaskComplete, on the task that was found.
unfoldable pub end_task :
    Cancels → TaskCompleteReport → Option TaskSpec → JobManager → Ending × JobManager
unfolding settle
end_task cancels request none m = (acked false, m)
end_task cancels request (some task) m =
    let task' : TaskSpec = record task { state = if request.success then completed else failed } in
    let m' = set_task task' m in
    let (exc, after) = settle cancels request task' (find_job_for_task task' m') m' in
    (acked_or exc, after)

unfoldable pub task_complete : Cancels → TaskCompleteReport → JobManager → Ending × JobManager
unfolding end_task
task_complete cancels request m = end_task cancels request (get request.task_id m.tasks) m

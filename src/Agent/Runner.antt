-- ===== src/Agent/Runner.antt =====
-- `AgentTaskRunner` of mesh/agent/executor.py, and the handlers of mesh/agent/server.py that call
-- it. A thread is its context; `started` holds those of the threads that were ever started.
-- `interrupts` are the ids that the runner's `TaskExecutor` has registered: only its `execute`
-- registers any, and the runner never calls that.
pub mod Handoff
pub mod Cancelled
use cluster_mesh.Prelude.{
  ℕ, String, ◌≡◌, Bool, true, false, not, Option, none, some, List, [], ◌∷◌, ◌++◌, map, ltb, ◌==◌,
  length, if◌then◌else◌,
}
use cluster_mesh.Prelude.Dict.{Dict, member, add, discard}
use cluster_mesh.Models.{TaskSpec, TaskState, completed, failed}
use cluster_mesh.Recovery.Checkpoints.{Checkpoints, save}
use cluster_mesh.Execution.Context.{TaskContext, Outcome, fresh, restore_from_checkpoint, finished}
use cluster_mesh.Agent.Client.{TaskCompleteReport, on_complete, null}

-- The library json, on objects of texts: what is written is read, and is no empty text.
pub record StateJson : Type 1 where
  pub Text : Type 0
  pub dumps : Dict String → Text
  pub loads : Text → Dict String
  pub is_blank : Text → Bool
  pub loads-dumps : (d : Dict String) → loads (dumps d) ≡ d
  pub is_blank-dumps : (d : Dict String) → is_blank (dumps d) ≡ false

-- The message TaskAssignment, over the texts of the library.
pub record TaskAssignment (Text : Type 0) : Type 0 where
  pub task_id : String
  pub job_id : String
  pub task_name : String
  pub cpu_cores : ℕ
  pub ram_gb : ℕ
  pub gpu_count : ℕ
  pub checkpoint : Bool
  pub checkpoint_interval : ℕ
  pub total_work : ℕ
  pub resume_progress : ℕ
  pub resume_state_json : Text

pub record AgentTaskRunner : Type 0 where
  pub checkpoints : Checkpoints
  pub interrupts : List String
  pub running : List String
  pub started : List TaskContext

abbrev pub new_runner : AgentTaskRunner
new_runner = record { checkpoints = []; interrupts = []; running = []; started = [] }

-- `TaskExecutor.interrupt`
unfoldable pub interrupt : String → AgentTaskRunner → AgentTaskRunner
interrupt task_id r =
    if member task_id r.interrupts
    then record r {
      started =
          map
            (λ (c : TaskContext).
              if c.task_spec.task_id == task_id then record c { interrupt = true } else c)
            r.started;
    }
    else r

-- The object that `assign` makes, with `json.loads(… or "{}")`.
unfoldable pub spec_of : (json : StateJson) → TaskAssignment json.Text → TaskSpec
spec_of json a = record {
  name = a.task_name;
  requirements = record {
    cpu_cores = a.cpu_cores;
    ram_gb = a.ram_gb;
    gpu_count = a.gpu_count;
    vram_gb = 0;
    cuda_version = none;
    network_gbps = 0;
    min_battery_pct = none;
  };
  pool = none;
  replicas = 1;
  checkpoint = a.checkpoint;
  checkpoint_interval = a.checkpoint_interval;
  preemption_ok = true;
  task_id = a.task_id;
  job_id = some a.job_id;
  replica_index = 0;
  state = TaskState.pending;
  assigned_node = none;
  progress = a.resume_progress;
  total_work = a.total_work;
  state_data = if json.is_blank a.resume_state_json then [] else json.loads a.resume_state_json;
  fn = some a.task_name;
}

-- `if assignment.get("resume_progress"): self.checkpoint_manager.save(…)`
unfoldable pub resume_checkpoint : TaskSpec → Checkpoints → Checkpoints
unfolding save
resume_checkpoint spec cps =
    if ltb 0 spec.progress then (save spec (some spec.state_data) 0 cps).1 else cps

-- `registered` are the names in mesh/tasks/registry.py; `none` where `get` raises KeyError.
unfoldable pub assign :
    (json : StateJson)
    → List String
    → TaskAssignment json.Text
    → AgentTaskRunner
    → Option Bool × AgentTaskRunner
unfolding spec_of resume_checkpoint restore_from_checkpoint
assign json registered a r =
    let spec = spec_of json a in
    let cps = resume_checkpoint spec r.checkpoints in
    let (_, context) = restore_from_checkpoint (fresh spec cps) in
    if member a.task_id r.running
    then (some false, r)
    else if not (member a.task_name registered)
    then (none, record r { checkpoints = cps })
    else (
      some true,
      record r {
        checkpoints = cps;
        running = add a.task_id r.running;
        started = r.started ++ context ∷ [];
      },
    )

unfoldable pub pause : String → AgentTaskRunner → AgentTaskRunner
unfolding interrupt
pause task_id r = interrupt task_id r

unfoldable pub cancel : String → AgentTaskRunner → AgentTaskRunner
unfolding interrupt
cancel task_id r =
    let r' = interrupt task_id r in record r' { running = discard task_id r'.running }

unfoldable pub running_count : AgentTaskRunner → ℕ
running_count r = length r.running

-- How `run` ends after the callable did: what the agent reports, and the object.
unfoldable pub end_of_run : Outcome → TaskSpec → Option TaskCompleteReport × TaskSpec
unfolding on_complete
end_of_run (Outcome.returned result) spec = (on_complete spec.task_id result none, finished spec)
end_of_run Outcome.interrupted spec = (on_complete spec.task_id null (some "interrupted"), spec)
end_of_run (Outcome.raised error) spec =
    (on_complete spec.task_id null (some error), record spec { state = failed })

-- The end of a thread, with `finally`.
unfoldable pub run_ends :
    Outcome → TaskContext → AgentTaskRunner → Option TaskCompleteReport × AgentTaskRunner
unfolding end_of_run
run_ends outcome c r = (
  (end_of_run outcome c.task_spec).0,
  record r { checkpoints = c.checkpoints; running = discard c.task_spec.task_id r.running },
)

-- The handlers of `AgentServicer`, with the message of their answers.
unfoldable pub assign_task :
    (json : StateJson)
    → List String
    → TaskAssignment json.Text
    → AgentTaskRunner
    → Option (Bool × String) × AgentTaskRunner
unfolding assign
assign_task json registered request r =
    let (answer, r') = assign json registered request r in
    (
      elim answer [
        | none ↦ none
        | some ok ↦ some (ok, if ok then "assigned" else "already running")
      ],
      r',
    )

unfoldable pub cancel_task : String → AgentTaskRunner → (Bool × String) × AgentTaskRunner
unfolding cancel
cancel_task task_id r = ((true, "cancelled"), cancel task_id r)

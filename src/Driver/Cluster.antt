-- ===== src/Driver/Cluster.antt =====
-- `DriverCluster` of mesh/driver/cluster.py, on the registry of mesh/health/heartbeat.py. The health
-- registry's tracker and the cluster are the two parts of an `Env`. What the attached job manager
-- does on a death is a parameter, as is the clock, `now` and `hour`.
use cluster_mesh.Prelude.{
  ℕ, String, Bool, true, false, not, Option, none, some, List, [], ◌∷◌, ◌++◌, ◌+◌, ◌==◌, select,
  sum_of, length, if◌then◌else◌,
}
use cluster_mesh.Prelude.Dict.{Dict, get, put, remove, values, add, discard}
use cluster_mesh.Models.{
  Node, NodeResources, NodeState, healthy, suspected, dead, same_state, TaskSpec, running, pending,
  completed, is_running,
}
use cluster_mesh.Health.Tracker
use cluster_mesh.Health.Registry
use cluster_mesh.Health.Registry.{Env, Callback}
use cluster_mesh.Scheduler.Scoring.{Float}
use cluster_mesh.Scheduler.Placement.{PlacementEngine, Placement, place}

-- `remote_agents` are the nodes that have one.
pub record DriverCluster : Type 0 where
  pub nodes : Dict Node
  pub remote_agents : List String
  pub tasks : Dict TaskSpec
  pub state_changes : List (String × NodeState × NodeState)

abbrev pub Cluster : Type 0
Cluster = Env DriverCluster

abbrev set_world : DriverCluster → Cluster → Cluster
set_world w env = record env { world = w }

-- `_on_state_change`, the registry's one callback.
unfoldable pub on_state_change : (String → Cluster → Cluster) → Callback DriverCluster
on_state_change handle_node_death id old new env =
    let w = env.world in
    let noted =
      set_world (record w { state_changes = w.state_changes ++ (id, old, new) ∷ [] }) env in
    if same_state new dead then handle_node_death id noted else noted

unfoldable pub register_node : ℕ → Node → Bool → Cluster → Cluster
register_node now node remote env =
    let w = env.world in
    Registry.register now node.node_id (
      set_world
        (record w {
          nodes = put node.node_id node w.nodes;
          remote_agents = if remote then add node.node_id w.remote_agents else w.remote_agents;
        })
        env)

-- `if node_id in self._nodes: self._nodes[node_id] = replace(…)`
abbrev change_node : String → (Node → Node) → Cluster → Cluster
change_node id change env =
    let w = env.world in
    elim (get id w.nodes) [
      | none ↦ env
      | some node ↦ set_world (record w { nodes = put id (change node) w.nodes }) env
    ]

abbrev with_metrics : String → Dict String → Dict String
with_metrics metrics tags = if metrics == "" then tags else put "host_metrics" metrics tags

unfoldable pub update_node_resources : String → NodeResources → String → Cluster → Cluster
update_node_resources id resources metrics env =
    change_node id (λ n. record n { resources = resources; tags = with_metrics metrics n.tags }) env

unfoldable pub update_node_state : String → NodeState → Cluster → Cluster
update_node_state id state env = change_node id (λ n. record n { state = state }) env

unfoldable pub remove_node : String → Cluster → Cluster
remove_node id env =
    let w = env.world in
    record env {
      tracker = Tracker.mark_dead id env.tracker;
      world = record w { nodes = remove id w.nodes; remote_agents = discard id w.remote_agents };
    }

-- The loop of `live_nodes`: each state is asked of the registry, which stores it.
unfoldable pub nodes_from : ℕ → Dict Node → Cluster → List Node × Cluster
nodes_from now [] env = ([], env)
nodes_from now ((id, node) ∷ rest) env =
    let (state, env') = Registry.get_state now id env in
    let (nodes, env'') = nodes_from now rest env' in (record node { state = state } ∷ nodes, env'')

abbrev pub not_dead : Node → Bool
not_dead n = not (same_state n.state dead)

unfoldable pub live_nodes : ℕ → Cluster → List Node × Cluster
unfolding nodes_from
live_nodes now env =
    let (nodes, env') = nodes_from now env.world.nodes env in (select not_dead nodes, env')

abbrev pub set_task : TaskSpec → Cluster → Cluster
set_task task env =
    let w = env.world in set_world (record w { tasks = put task.task_id task w.tasks }) env

-- What `submit` makes of the placement.
unfoldable pub assign_placed :
    {f : Float} → TaskSpec → Option (Placement f) → Cluster → Option String × Cluster
assign_placed task none env = (none, set_task (record task { state = pending }) env)
assign_placed task (some p) env =
    (some p.node_id, set_task (record task { assigned_node = some p.node_id; state = running }) env)

unfoldable pub submit :
    (f : Float) → PlacementEngine → (now hour : ℕ) → TaskSpec → Cluster → Option String × Cluster
unfolding assign_placed
submit f e now hour task env =
    let (nodes, env') = live_nodes now (set_task task env) in
    assign_placed task (place f e task nodes hour) env'

-- The counts and totals of `cluster_stats`.
pub record Stats : Type 0 where
  pub total_nodes : ℕ
  pub healthy_nodes : ℕ
  pub suspected_nodes : ℕ
  pub dead_nodes : ℕ
  pub total_cpu_cores : ℕ
  pub free_cpu_cores : ℕ
  pub total_ram_gb : ℕ
  pub free_ram_gb : ℕ
  pub total_gpus : ℕ
  pub tasks_running : ℕ
  pub tasks_completed : ℕ
  pub active_tasks : ℕ

abbrev is_pending : TaskSpec → Bool
is_pending t = elim t.state [ pending ↦ true | _ ↦ false ]

abbrev is_completed : TaskSpec → Bool
is_completed t = elim t.state [ completed ↦ true | _ ↦ false ]

abbrev count {ℓ} : {A : Type ℓ} → (A → Bool) → List A → ℕ
count test l = length (select test l)

unfoldable pub cluster_stats : ℕ → Cluster → Stats × Cluster
cluster_stats now env =
    let nodes = values env.world.nodes in
    let tasks = values env.world.tasks in
    let (live, env') = live_nodes now env in
    let running_now = count (λ (t : TaskSpec). is_running t.state) tasks in
    (
      record {
        total_nodes = length env.world.nodes;
        healthy_nodes = count (λ (n : Node). same_state n.state healthy) nodes;
        suspected_nodes = count (λ (n : Node). same_state n.state suspected) nodes;
        dead_nodes = count (λ (n : Node). same_state n.state dead) nodes;
        total_cpu_cores = sum_of (λ (n : Node). n.resources.cpu_cores_total) live;
        free_cpu_cores = sum_of (λ (n : Node). n.resources.cpu_cores_free) live;
        total_ram_gb = sum_of (λ (n : Node). n.resources.ram_gb_total) live;
        free_ram_gb = sum_of (λ (n : Node). n.resources.ram_gb_free) live;
        total_gpus = sum_of (λ (n : Node). n.resources.gpu_count) live;
        tasks_running = running_now;
        tasks_completed = count is_completed tasks;
        active_tasks = running_now + count is_pending tasks;
      },
      env',
    )

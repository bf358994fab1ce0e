-- ===== src/Sim/Stats.antt =====
-- The questions that `SimCluster` of mesh/sim/cluster.py answers.
use cluster_mesh.Prelude.{ℕ, String, Bool, true, false, Option, none, some, length, select, sum_of}
use cluster_mesh.Prelude.Dict.{get, values}
use cluster_mesh.Models.{Node, healthy, same_state, TaskSpec, TaskState, completed, is_running}
use cluster_mesh.Sim.Agent.{SimAgent}
use cluster_mesh.Sim.Cluster.{SimCluster, Sim, live_nodes}

unfoldable pub get_task : String → SimCluster → Option TaskSpec
get_task task_id w = get task_id w.tasks

abbrev is_completed : TaskState → Bool
is_completed completed = true
is_completed _ = false

unfoldable pub task_completed : String → SimCluster → Bool
task_completed task_id w = elim (get task_id w.tasks) [
  | none ↦ false
  | some task ↦ is_completed task.state
]

pub record SimStats : Type 0 where
  pub total_nodes : ℕ
  pub alive_nodes : ℕ
  pub healthy_nodes : ℕ
  pub total_cpu_cores : ℕ
  pub free_cpu_cores : ℕ
  pub total_ram_gb : ℕ
  pub free_ram_gb : ℕ
  pub tasks_running : ℕ
  pub tasks_completed : ℕ

unfoldable pub cluster_stats : Sim → SimStats × Sim
unfolding live_nodes
cluster_stats env =
    let (nodes, env') = live_nodes env in
    let w = env'.world in
    (
      record {
        total_nodes = length w.agents;
        alive_nodes = length (select (λ (a : SimAgent). a.alive) w.agents);
        healthy_nodes = length (select (λ (n : Node). same_state n.state healthy) nodes);
        total_cpu_cores = sum_of (λ (n : Node). n.resources.cpu_cores_total) nodes;
        free_cpu_cores = sum_of (λ (n : Node). n.resources.cpu_cores_free) nodes;
        total_ram_gb = sum_of (λ (n : Node). n.resources.ram_gb_total) nodes;
        free_ram_gb = sum_of (λ (n : Node). n.resources.ram_gb_free) nodes;
        tasks_running = length (select (λ (t : TaskSpec). is_running t.state) (values w.tasks));
        tasks_completed = length (select (λ (t : TaskSpec). is_completed t.state) (values w.tasks));
      },
      env',
    )

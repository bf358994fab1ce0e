-- ===== src/Recovery/Replication.antt =====
-- `ReplicationManager` of mesh/recovery/replication.py.
use cluster_mesh.Prelude.{
  ℕ, suc, String, Bool, true, false, not, ◌&&◌, Option, none, some, List, [], ◌∷◌, select, ◌==◌,
}
use cluster_mesh.Prelude.Dict.{member, add}
use cluster_mesh.Models.{Node, TaskSpec, Job, JobState, is_active, running, pending}
use cluster_mesh.Scheduler.Scoring.{Float}
use cluster_mesh.Scheduler.Placement.{PlacementEngine, place}
use Prim.Native.String.{◌++◌}

-- `create_replica_specs`: the fresh ids, one `uuid4()` each, are given.
unfoldable pub replicas_from : TaskSpec → String → ℕ → List String → List TaskSpec
replicas_from base job_id i [] = []
replicas_from base job_id i (id ∷ ids) =
    record base { task_id = id; job_id = some job_id; replica_index = i; replicas = 1 }
    ∷ replicas_from base job_id (suc i) ids

unfoldable pub create_replica_specs : TaskSpec → String → List String → List TaskSpec
unfolding replicas_from
create_replica_specs base job_id ids = replicas_from base job_id 0 ids

-- The specs that compete with the one named: other replicas that run or may yet run.
abbrev pub competes : String → TaskSpec → Bool
competes id s = not (s.task_id == id) && is_active s.state

unfoldable pub on_replica_complete : Job → TaskSpec → List TaskSpec → Job × List TaskSpec
on_replica_complete job completed_spec all_specs = (
  record job { state = JobState.completed; completed_task_id = some completed_spec.task_id },
  select (competes completed_spec.task_id) all_specs,
)

abbrev pub all_failed : String → String
all_failed id = "All replicas failed (last: " ++ (id ++ ")")

-- `if active: return True`, and the job's failure otherwise.
abbrev pub still_active : Job → TaskSpec → List TaskSpec → Bool × Job
still_active job failed_spec [] =
    (false, record job { state = JobState.failed; error = some (all_failed failed_spec.task_id) })
still_active job failed_spec (s ∷ active) = (true, job)

unfoldable pub on_replica_failure : Job → TaskSpec → List TaskSpec → Bool × Job
on_replica_failure job failed_spec all_specs =
    still_active job failed_spec (select (competes failed_spec.task_id) all_specs)

module _ (f : Float) (e : PlacementEngine) (nodes : List Node) (hour : ℕ) where
  -- `available`, or all nodes where every node is used.
  unfoldable pub fresh_nodes : List String → List Node
  fresh_nodes used = elim (select (λ n. not (member n.node_id used)) nodes) [
    | [] ↦ nodes
    | n ∷ rest ↦ n ∷ rest
  ]

  -- The loop of `assign_to_different_nodes`.
  unfoldable pub assign_from : List String → List TaskSpec → List (TaskSpec × Option String)
  unfolding fresh_nodes
  assign_from used [] = []
  assign_from used (spec ∷ specs) = elim (place f e spec (fresh_nodes used) hour) [
    | none ↦ (record spec { state = pending }, none) ∷ assign_from used specs
    | some p ↦
        (record spec { assigned_node = some p.node_id; state = running }, some p.node_id)
        ∷ assign_from (add p.node_id used) specs
  ]

  unfoldable pub assign_to_different_nodes : List TaskSpec → List (TaskSpec × Option String)
  unfolding assign_from
  assign_to_different_nodes specs = assign_from [] specs

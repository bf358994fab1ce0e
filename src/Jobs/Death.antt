-- ===== src/Jobs/Death.antt =====
-- `handle_node_death` and `handle_preemption`: the tasks on a lost node are paused, stolen and
-- dispatched again. What the cluster does with the node itself is in Driver.Cluster and
-- Health.Registry; `live` is what `_live_nodes()` answers. The wait of two seconds ends with the
-- threads of `ended` gone from `_running`.
use cluster_mesh.Prelude.{
  ℕ, String, Bool, true, false, not, Option, none, some, List, [], ◌∷◌, ◌++◌, select, ◌==◌,
  if◌then◌else◌,
}
use cluster_mesh.Prelude.Dict.{get, values, discard}
use cluster_mesh.Models.{Node, TaskSpec, is_terminal}
use cluster_mesh.Scheduler.Scoring.{Float}
use cluster_mesh.Scheduler.Placement.{PlacementEngine}
use cluster_mesh.Recovery.Stealing.{find_orphaned_tasks, steal}
use cluster_mesh.Jobs.Manager.{JobManager, set_task, pause_task, find_job_for_task}
use cluster_mesh.Jobs.Dispatch.{Agents, dispatch}

-- `_running` in the order of its insertions.
abbrev pub oldest_first : List String → List String
oldest_first [] = []
oldest_first (id ∷ ids) = oldest_first ids ++ id ∷ []

abbrev on_node : String → TaskSpec → Bool
on_node node spec = elim spec.assigned_node [ none ↦ false | some id ↦ id == node ]

-- The loop over `_running`, and its body.
unfoldable pub pause_one : String → String → JobManager → JobManager
pause_one node id m = elim (get id m.tasks) [
  | none ↦ m
  | some spec ↦ if on_node node spec then pause_task spec m else m
]

unfoldable pub pause_running : String → List String → JobManager → JobManager
pause_running node [] m = m
pause_running node (id ∷ ids) m = pause_running node ids (pause_one node id m)

-- `self._running.pop(...)` of the threads that ended.
unfoldable pub threads_ended : List String → JobManager → JobManager
threads_ended [] m = m
threads_ended (id ∷ ids) m = threads_ended ids (record m { running = discard id m.running })

-- What the placing of tasks changed of the task objects.
unfoldable pub store_placed : List (TaskSpec × Option String) → JobManager → JobManager
store_placed [] m = m
store_placed ((spec, placed) ∷ rest) m = store_placed rest (set_task spec m)

-- The body of the last loop.
unfoldable pub dispatch_one : Agents → ℕ → TaskSpec → Option String → JobManager → JobManager
dispatch_one agents now spec none m = m
dispatch_one agents now spec (some new_node) m = elim (find_job_for_task spec m) [
  | none ↦ m
  | some job ↦ if is_terminal job then m else dispatch true agents now spec job m
]

unfoldable pub dispatch_stolen :
    Agents → ℕ → List (TaskSpec × Option String) → JobManager → JobManager
unfolding dispatch_one
dispatch_stolen agents now [] m = m
dispatch_stolen agents now ((spec, placed) ∷ rest) m =
    dispatch_stolen agents now rest (dispatch_one agents now spec placed m)

module _ (f : Float) (e : PlacementEngine) (hour now : ℕ) (agents : Agents) (live : List Node)
    (ended : List String) where
  -- What follows the wait; the early return where no task is orphaned is the empty case.
  unfoldable pub reassign : String → List Node → JobManager → JobManager
  unfolding store_placed dispatch_stolen
  reassign node nodes m =
      let stolen =
        steal f e m.checkpoints hour (find_orphaned_tasks (values m.tasks) (node ∷ [])) nodes in
      dispatch_stolen agents now stolen (store_placed stolen m)

  -- The node's remote agent is forgotten first.
  unfoldable pub handle_node_death : String → JobManager → JobManager
  unfolding pause_running threads_ended reassign
  handle_node_death node m =
      let m₁ : JobManager = record m { remotes = discard node m.remotes } in
      reassign node live (threads_ended ended (pause_running node (oldest_first m₁.running) m₁))

  unfoldable pub handle_preemption : String → JobManager → JobManager
  unfolding pause_running threads_ended reassign
  handle_preemption node m =
      reassign node (select (λ n. not (n.node_id == node)) live)
        (threads_ended ended (pause_running node (oldest_first m.running) m))

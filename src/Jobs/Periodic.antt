-- ===== src/Jobs/Periodic.antt =====
-- `run_rebalance` and `check_speculation`. `live` is what `_live_nodes()` answers; `fresh` is the id,
-- a `uuid4()`, that the duplicate of a task gets.
use cluster_mesh.Prelude.{
  ℕ, ◌+◌, String, Bool, true, false, Option, none, some, List, [], ◌∷◌, ◌++◌, length, ◌≡◌, arith,
  if◌then◌else◌, Option-cases, inl, inr,
}
use cluster_mesh.Prelude.Dict.{get, put, values, member}
use cluster_mesh.Models.{Node, TaskSpec, running, pending, migrating, is_terminal}
use cluster_mesh.Scheduler.Scoring.{Float}
use cluster_mesh.Scheduler.Placement.{PlacementEngine, Placement, place}
use cluster_mesh.Scheduler.Rebalancing.{Loads, RebalanceAction, analyze}
use cluster_mesh.Recovery.Speculation.{SpeculativeExecutor, find_stragglers}
use cluster_mesh.Jobs.Manager.{
  JobManager, set_task, persist_task, pause_signal, pause_task, find_job_for_task,
}
use cluster_mesh.Jobs.Dispatch.{Agents, dispatch}
use cluster_mesh.Jobs.Stranded.{SameRuns, dispatch-SameRuns}
use cluster_mesh.Jobs.Frames.{persist_task-SameMemory}

-- `self._persist_task(task)` after a dispatch, which may have changed the object.
unfoldable pub persist_current : String → JobManager → JobManager
persist_current id m = elim (get id m.tasks) [ none ↦ m | some task ↦ persist_task task m ]

-- What follows the pause of a task that is moved.
unfoldable pub redirect : Agents → ℕ → TaskSpec → JobManager → JobManager
redirect agents now task m = elim (find_job_for_task task (set_task task m)) [
  | none ↦ set_task task m
  | some job ↦ persist_current task.task_id (dispatch true agents now task job (set_task task m))
]

abbrev pub moved_to : String → TaskSpec → TaskSpec
moved_to node task = record task { assigned_node = some node; state = migrating }

unfoldable pub rebalance_one : Agents → ℕ → RebalanceAction → JobManager → JobManager
rebalance_one agents now action m = elim (get action.task_id m.tasks) [
  | none ↦ m
  | some task ↦ redirect agents now (moved_to action.to_node task) (pause_task task m)
]

unfoldable pub rebalance_all : Agents → ℕ → List RebalanceAction → JobManager → JobManager
unfolding rebalance_one
rebalance_all agents now [] m = m
rebalance_all agents now (action ∷ actions) m =
    rebalance_all agents now actions (rebalance_one agents now action m)

unfoldable pub run_rebalance : Loads → Agents → ℕ → List Node → JobManager → ℕ × JobManager
unfolding rebalance_all
run_rebalance loads agents now live m =
    let actions = analyze loads live (values m.tasks) in
    (length actions, rebalance_all agents now actions m)

abbrev duplicate_of : TaskSpec → String → TaskSpec
duplicate_of spec id = record spec {
  task_id = id;
  replica_index = spec.replica_index + 100;
  state = pending;
  assigned_node = none;
}

module _ (f : Float) (e : PlacementEngine) (hour now : ℕ) (agents : Agents) (live : List Node) where
  -- What follows `cluster.submit(dup)`.
  unfoldable pub launch : TaskSpec → TaskSpec → Option (Placement f) → JobManager → ℕ × JobManager
  launch spec dup none m = (0, set_task dup m)
  launch spec dup (some p) m =
      let placed : TaskSpec = record dup { assigned_node = some p.node_id; state = running } in
      let m₁ : JobManager = record (set_task placed m) {
        speculative = put spec.task_id dup.task_id m.speculative;
      } in
      (
        1,
        elim (find_job_for_task spec m) [
          | none ↦ m₁
          | some job ↦ persist_current dup.task_id (dispatch true agents now placed job m₁)
        ],
      )

  -- Is there a job for the straggler that has not ended?
  abbrev wanted : TaskSpec → JobManager → Bool
  wanted spec m = elim (find_job_for_task spec m) [
    | none ↦ false
    | some job ↦ if is_terminal job then false else true
  ]

  unfoldable pub launch_all : (String → String) → List TaskSpec → JobManager → ℕ × JobManager
  unfolding launch
  launch_all fresh [] m = (0, m)
  launch_all fresh (spec ∷ specs) m =
      let dup = duplicate_of spec (fresh spec.task_id) in
      let (n, m₁) = if wanted spec m then launch spec dup (place f e dup live hour) m else (0, m) in
      let (k, m₂) = launch_all fresh specs m₁ in (n + k, m₂)

  unfoldable pub check_speculation :
      (List ℕ → ℕ) → (multiplier least : ℕ) → (String → String) → JobManager → ℕ × JobManager
  unfolding launch_all
  check_speculation median multiplier least fresh m =
      let s : SpeculativeExecutor = record {
        multiplier = multiplier;
        min_runtime_seconds = least;
        start_times = m.start_times;
        speculative = m.speculative;
      } in
      launch_all fresh (find_stragglers median now s (values m.tasks)) m

persist_current-SameRuns : (id : String) (m : JobManager) → SameRuns (persist_current id m) m
unfolding persist_current
persist_current-SameRuns id m = elim (Option-cases (get id m.tasks)) [
  | inl e ↦ ground arith
  | inr (task, e) ↦ ground (arith, persist_task-SameMemory task m)
]

redirect-SameRuns :
    (agents : Agents) (now : ℕ) (task : TaskSpec) (m : JobManager)
    → member task.task_id m.running ≡ true
    → SameRuns (redirect agents now task m) m
unfolding redirect
redirect-SameRuns agents now task m held =
    elim (Option-cases (find_job_for_task task (set_task task m))) [
      | inl e ↦ ground arith
      | inr (job, e) ↦ ground (
        arith,
        dispatch-SameRuns agents now task job (set_task task m) held,
        persist_current-SameRuns task.task_id (dispatch true agents now task job (set_task task m)),
      )
    ]

-- Moving a task that is held for running only pauses it: nobody is asked to run it on the node that
-- it is moved to.
rebalance_one_strands :
    (agents : Agents) (now : ℕ) (action : RebalanceAction) (task : TaskSpec) (m : JobManager)
    → get action.task_id m.tasks ≡ some task
    → member task.task_id m.running ≡ true
    → ((rebalance_one agents now action m).signals ≡ m.signals ++ pause_signal m task ∷ [])
      × ((rebalance_one agents now action m).running ≡ m.running)
unfolding rebalance_one pause_task
rebalance_one_strands agents now action task m known held =
    ground
      (arith, redirect-SameRuns agents now (moved_to action.to_node task) (pause_task task m) held)

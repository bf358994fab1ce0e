-- ===== src/Jobs/Stranded.antt =====
-- A stolen task that is still held for running is dispatched to nobody.
use cluster_mesh.Prelude.{
  ℕ, String, ◌≡◌, refl, ◌∙◌, ap, true, Option, none, some, List, [], ◌∷◌, arith, All, inl, inr,
  Option-cases,
}
use cluster_mesh.Prelude.Dict.{values, member, discard, add}
use cluster_mesh.Models.{Node, TaskSpec, Job}
use cluster_mesh.Scheduler.Scoring.{Float}
use cluster_mesh.Scheduler.Placement.{PlacementEngine, place}
use cluster_mesh.Recovery.Checkpoints.{Checkpoints, restore}
use cluster_mesh.Recovery.Stealing.{find_orphaned_tasks, free_nodes, migrated, steal_from, steal}
use cluster_mesh.Jobs.Manager.{JobManager, set_task, pause_task, find_job_for_task}
use cluster_mesh.Jobs.Dispatch.{Agents, dispatch, dispatch_remote, start_local_execution}
use cluster_mesh.Jobs.Death.{
  oldest_first, pause_one, pause_running, threads_ended, store_placed, dispatch_one,
  dispatch_stolen, reassign, handle_node_death,
}

-- The signals and what is held for running.
pub record SameRuns (m n : JobManager) : Type 0 where
  pub running : m.running ≡ n.running
  pub signals : m.signals ≡ n.signals

pub dispatch-SameRuns :
    (agents : Agents) (now : ℕ) (spec : TaskSpec) (job : Job) (m : JobManager)
    → member spec.task_id m.running ≡ true
    → SameRuns (dispatch true agents now spec job m) m
unfolding dispatch dispatch_remote start_local_execution
dispatch-SameRuns agents now spec job m held = ground arith

dispatch_one-SameRuns :
    (agents : Agents) (now : ℕ) (spec : TaskSpec) (placed : Option String) (m : JobManager)
    → member spec.task_id m.running ≡ true
    → SameRuns (dispatch_one agents now spec placed m) m
unfolding dispatch_one
dispatch_one-SameRuns agents now spec none m held = ground arith
dispatch_one-SameRuns agents now spec (some node) m held =
    elim (Option-cases (find_job_for_task spec m)) [
      | inl e ↦ ground arith
      | inr (job, e) ↦ ground (arith, dispatch-SameRuns agents now spec job m held)
    ]

abbrev Held : List String → List (TaskSpec × Option String) → Type 0
Held running l = All (λ (r : TaskSpec × Option String). member r.0.task_id running ≡ true) l

dispatch_stolen-SameRuns :
    (agents : Agents) (now : ℕ) (l : List (TaskSpec × Option String)) (m : JobManager)
    → Held m.running l
    → SameRuns (dispatch_stolen agents now l m) m
unfolding dispatch_stolen
dispatch_stolen-SameRuns agents now [] m held = ground arith
dispatch_stolen-SameRuns agents now ((spec, placed) ∷ l) m held =
    let next = dispatch_one agents now spec placed m in
    let one = dispatch_one-SameRuns agents now spec placed m held.0 in
    let rest = dispatch_stolen-SameRuns agents now l next (rw one.running held.1) in
    record { running = rest.running ∙ one.running; signals = rest.signals ∙ one.signals }

store_placed-SameRuns :
    (l : List (TaskSpec × Option String)) (m : JobManager) → SameRuns (store_placed l m) m
unfolding store_placed
store_placed-SameRuns [] m = ground arith
store_placed-SameRuns ((spec, placed) ∷ l) m =
    ground (arith, store_placed-SameRuns l (set_task spec m))

module _ (f : Float) (e : PlacementEngine) (cps : Checkpoints) (hour : ℕ) (hs : List Node)
    (running : List String) where
  same_id : (t : TaskSpec) → (restore t cps).task_id ≡ t.task_id
  unfolding restore
  same_id t = ground arith

  steal_from-Held :
      (used : List String) (ts : List TaskSpec)
      → All (λ (t : TaskSpec). member t.task_id running ≡ true) ts
      → Held running (steal_from f e cps hour hs used ts)
  unfolding steal_from
  steal_from-Held used [] held = tt
  steal_from-Held used (t ∷ ts) held =
      let here = ap (λ (id : String). member id running) (same_id t) ∙ held.0 in
      elim (Option-cases
        (place f e (migrated f e cps hour t) (free_nodes f e cps hour hs used) hour)) [
          | inl nowhere ↦ rw (nowhere, steal_from) (here, steal_from-Held used ts held.1)
          | inr (p, placed) ↦
              rw (placed, steal_from) (here, steal_from-Held (add p.node_id used) ts held.1)
        ]

module _ (f : Float) (e : PlacementEngine) (hour now : ℕ) (agents : Agents) (live : List Node) where
  reassign-SameRuns :
      (node : String) (nodes : List Node) (m : JobManager)
      → All
          (λ (t : TaskSpec). member t.task_id m.running ≡ true)
          (find_orphaned_tasks (values m.tasks) (node ∷ []))
      → SameRuns (reassign f e hour now agents live [] node nodes m) m
  unfolding reassign steal
  reassign-SameRuns node nodes m held =
      let stolen =
        steal f e m.checkpoints hour (find_orphaned_tasks (values m.tasks) (node ∷ [])) nodes in
      let stored = store_placed-SameRuns stolen m in
      let gone =
        dispatch_stolen-SameRuns agents now stolen (store_placed stolen m)
          (rw stored.running (steal_from-Held f e m.checkpoints hour _ m.running [] _ held)) in
      record { running = gone.running ∙ stored.running; signals = gone.signals ∙ stored.signals }

  -- What pausing leaves as it is.
  pause_one-frame :
      (node id : String) (m : JobManager)
      → ((pause_one node id m).running ≡ m.running) × ((pause_one node id m).tasks ≡ m.tasks)
  unfolding pause_one pause_task
  pause_one-frame node id m = ground arith

  pause_running-frame :
      (node : String) (ids : List String) (m : JobManager)
      → ((pause_running node ids m).running ≡ m.running)
        × ((pause_running node ids m).tasks ≡ m.tasks)
  unfolding pause_running
  pause_running-frame node [] m = (refl, refl)
  pause_running-frame node (id ∷ ids) m =
      ground (arith, pause_running-frame node ids (pause_one node id m), pause_one-frame node id m)

  -- When every task that a lost node orphans is in `_running`, as a task of a remote agent is, and
  -- no thread ends within the wait, nothing is sent and nothing started after the pause, and
  -- `_running` is as it was.
  pub handle_node_death_strands :
      (node : String) (m : JobManager)
      → All
          (λ (t : TaskSpec). member t.task_id m.running ≡ true)
          (find_orphaned_tasks (values m.tasks) (node ∷ []))
      → ((handle_node_death f e hour now agents live [] node m).signals
          ≡ (pause_running node
              (oldest_first m.running)
              (record m { remotes = discard node m.remotes })).signals)
        × ((handle_node_death f e hour now agents live [] node m).running ≡ m.running)
  unfolding handle_node_death threads_ended
  handle_node_death_strands node m held =
      let m₁ : JobManager = record m { remotes = discard node m.remotes } in
      let paused = pause_running node (oldest_first m.running) m₁ in
      let (runs, tasks) = pause_running-frame node (oldest_first m.running) m₁ in
      let after = reassign-SameRuns node live paused (rw (runs, tasks) held) in
      (after.signals, after.running ∙ runs)

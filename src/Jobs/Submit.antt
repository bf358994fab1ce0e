-- ===== src/Jobs/Submit.antt =====
-- `submit`, up to its wait for the result: `create_replica_specs` takes fresh ids, `new_job_id` is
-- the fresh id of the job, `live` what `_live_nodes()` answers.
use cluster_mesh.Prelude.{
  ℕ, String, true, Option, none, some, List, [], ◌∷◌, map, ltb, ◌==◌, if◌then◌else◌,
}
use cluster_mesh.Prelude.Dict.{Dict, get, put, has}
use cluster_mesh.Models.{Node, TaskSpec, running, pending, Job, JobState}
use cluster_mesh.Scheduler.Scoring.{Float}
use cluster_mesh.Scheduler.Placement.{PlacementEngine, Placement, place}
use cluster_mesh.Recovery.Replication.{create_replica_specs, assign_to_different_nodes}
use cluster_mesh.Jobs.Manager.{JobManager, set_task, set_job, persist_job, persist_task}
use cluster_mesh.Jobs.Dispatch.{Agents, dispatch}
use cluster_mesh.Jobs.Death.{store_placed}

-- `if idempotency_key`: no key, or an empty one, is none.
abbrev pub real_key : Option String → Option String
real_key none = none
real_key (some key) = if key == "" then none else some key

abbrev pub known_key : Option String → JobManager → Option String
known_key none m = none
known_key (some key) m = get key m.idempotency

abbrev with_key : Option String → String → JobManager → JobManager
with_key none job_id m = m
with_key (some key) job_id m = record m { idempotency = put key job_id m.idempotency }

-- The job, its key and its tasks' ids enter the manager.
unfoldable pub file_job : Job → Option String → JobManager → JobManager
file_job job key m =
    let m₁ = with_key (real_key key) job.job_id (set_job job m) in
    record m₁ { job_tasks = put job.job_id job.task_ids m₁.job_tasks }

abbrev pub new_job : String → String → Option String → Job
new_job name job_id key = record {
  job_id = job_id;
  name = name;
  state = JobState.pending;
  task_ids = [];
  result = none;
  error = none;
  idempotency_key = key;
  completed_task_id = none;
}

abbrev ids : List TaskSpec → List String
ids specs = map (λ (s : TaskSpec). s.task_id) specs

unfoldable pub store_specs : List TaskSpec → JobManager → JobManager
store_specs [] m = m
store_specs (spec ∷ specs) m = store_specs specs (set_task spec m)

-- What `cluster.submit` makes of its placement.
abbrev pub placed_at : {f : Float} → TaskSpec → Option (Placement f) → TaskSpec × Option String
placed_at spec none = (record spec { state = pending }, none)
placed_at spec (some p) =
    (record spec { assigned_node = some p.node_id; state = running }, some p.node_id)

-- The job as it is now: an earlier dispatch may have failed it.
abbrev current : Job → JobManager → Job
current job m = elim (get job.job_id m.jobs) [ none ↦ job | some now_is ↦ now_is ]

-- The last loop.
unfoldable pub start_all :
    Agents → ℕ → Job → List (TaskSpec × Option String) → JobManager → JobManager
start_all agents now job [] m = m
start_all agents now job ((spec, none) ∷ rest) m =
    start_all agents now job rest (persist_task spec m)
start_all agents now job ((spec, some node) ∷ rest) m =
    let m₁ = persist_task spec m in
    start_all agents now job rest (dispatch true agents now spec (current job m₁) m₁)

-- mesh/tasks/registry.py: the callables by their tasks' names.
unfoldable pub register_mesh_task : String → String → Dict String → Dict String
register_mesh_task name fn registry = put name fn registry

module _ (f : Float) (e : PlacementEngine) (hour now : ℕ) (agents : Agents) (live : List Node) where
  unfoldable pub place_specs : ℕ → List TaskSpec → List (TaskSpec × Option String)
  place_specs replicas specs =
      if ltb 1 replicas
      then assign_to_different_nodes f e live hour specs
      else map (λ s. placed_at s (place f e s live hour)) specs

  -- The job and its tasks, before any is placed.
  unfoldable pub register_job :
      TaskSpec
      → ℕ
      → Option String
      → String
      → List String
      → JobManager
      → Job × List TaskSpec × JobManager
  unfolding store_specs file_job
  register_job base_spec replicas key new_job_id fresh m =
      let base : TaskSpec = record base_spec { job_id = some new_job_id } in
      let specs =
        if ltb 1 replicas then create_replica_specs base new_job_id fresh else base ∷ [] in
      let job : Job = record (new_job base_spec.name new_job_id key) { task_ids = ids specs } in
      (job, specs, store_specs specs (file_job job key m))

  unfoldable pub submit_new :
      TaskSpec → ℕ → Option String → String → List String → JobManager → JobManager
  unfolding register_job place_specs start_all
  submit_new base_spec replicas key new_job_id fresh m =
      let (job, specs, m₁) = register_job base_spec replicas key new_job_id fresh m in
      let placements = place_specs replicas specs in
      let runs : Job = record job { state = JobState.running } in
      start_all agents now runs placements
        (persist_job runs (set_job runs (store_placed placements m₁)))

  -- What a submission answers to a key that is known or not.
  unfoldable pub answer :
      Option String
      → TaskSpec
      → ℕ
      → Option String
      → String
      → List String
      → JobManager
      → Option String × JobManager
  answer none base_spec replicas key new_job_id fresh m =
      (some new_job_id, submit_new base_spec replicas key new_job_id fresh m)
  answer (some existing) base_spec replicas key new_job_id fresh m =
      (if has existing m.jobs then some existing else none, m)

  -- The id of the job that the caller gets, none where the source raises KeyError. `base_spec` is what
  -- `to_spec` gives, but for the task's callable `fn`, which is registered under the task's name first.
  unfoldable pub submit :
      (fn : String)
      → TaskSpec
      → ℕ
      → Option String
      → String
      → List String
      → Dict String
      → JobManager
      → Option String × Dict String × JobManager
  unfolding answer
  submit fn base_spec replicas key new_job_id fresh registry m =
      let spec : TaskSpec = record base_spec { fn = some fn } in
      let (answered, after) =
        answer (known_key (real_key key) m) spec replicas key new_job_id fresh m in
      (answered, register_mesh_task base_spec.name fn registry, after)

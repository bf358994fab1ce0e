-- ===== src/Jobs/Resume.antt =====
-- `resume_from_store`, after a driver became leader.
use cluster_mesh.Prelude.{ℕ, String, false, Option, none, some, List, [], ◌∷◌, ◌++◌, if◌then◌else◌}
use cluster_mesh.Prelude.Dict.{Dict, get, get_or, put, values}
use cluster_mesh.Models.{TaskSpec, is_running, Job, is_terminal, Checkpoint}
use cluster_mesh.Jobs.Manager.{JobManager, Store, set_task, find_job_for_task}
use cluster_mesh.Jobs.Dispatch.{Agents, dispatch}

-- The first loop: the jobs and their idempotency keys.
unfoldable pub load_jobs : List Job → JobManager → JobManager
load_jobs [] m = m
load_jobs (job ∷ jobs) m =
    let m₁ : JobManager = record m { jobs = put job.job_id job m.jobs } in
    load_jobs jobs (elim job.idempotency_key [
      | none ↦ m₁
      | some key ↦ record m₁ { idempotency = put key job.job_id m₁.idempotency }
    ])

-- The second loop: each task gets back the callable that is registered under its name, if any.
unfoldable pub load_tasks :
    (String → Option String)
    → List TaskSpec
    → Dict (List String)
    → JobManager
    → Dict (List String) × JobManager
load_tasks registry [] job_tasks m = (job_tasks, m)
load_tasks registry (task ∷ tasks) job_tasks m =
    let job_tasks' : Dict (List String) = elim task.job_id [
      | none ↦ job_tasks
      | some job_id ↦ put job_id (get_or [] job_id job_tasks ++ task.task_id ∷ []) job_tasks
    ] in
    load_tasks registry tasks job_tasks' (set_task (record task { fn = registry task.name }) m)

-- The third loop.
unfoldable pub load_job_tasks : Dict (List String) → JobManager → JobManager
load_job_tasks [] m = m
load_job_tasks ((job_id, ids) ∷ rest) m =
    load_job_tasks rest (record m { job_tasks = put job_id ids m.job_tasks })

-- The progress and the user state of the checkpoint, where there is one.
abbrev pub with_checkpoint : Option Checkpoint → TaskSpec → TaskSpec
with_checkpoint none task = task
with_checkpoint (some cp) task = record task { progress = cp.progress; state_data = cp.state_data }

-- One round of the last loop. It lists the store anew: its tasks are other objects than those that
-- the second loop gave their callables.
unfoldable pub redispatch : Agents → ℕ → Store → TaskSpec → JobManager → JobManager
redispatch agents now store task m =
    let task' = with_checkpoint (get task.task_id store.checkpoints) task in
    let next : JobManager = elim (find_job_for_task task' m) [
      | none ↦ m
      | some job ↦ if is_terminal job then m else dispatch false agents now task' job m
    ] in
    if is_running task.state then next else m

unfoldable pub redispatch_all : Agents → ℕ → Store → List TaskSpec → JobManager → JobManager
unfolding redispatch
redispatch_all agents now store [] m = m
redispatch_all agents now store (task ∷ tasks) m =
    redispatch_all agents now store tasks (redispatch agents now store task m)

unfoldable pub resume_from_store :
    Agents → (String → Option String) → ℕ → Store → JobManager → JobManager
unfolding load_jobs load_tasks load_job_tasks redispatch_all
resume_from_store agents registry now store m =
    let m₁ = load_jobs (values store.jobs) m in
    let (job_tasks, m₂) = load_tasks registry (values store.tasks) [] m₁ in
    redispatch_all agents now store (values store.tasks) (load_job_tasks job_tasks m₂)

-- ===== src/Jobs/Durability.antt =====
-- What of a job reaches the durable store, and what a new leader makes of it.
use cluster_mesh.Prelude.{
  ℕ, String, ◌≡◌, refl, ◌∙◌, false, Option, none, some, List, [], ◌∷◌, arith, eq_refl, inl, inr,
  select, Option-cases,
}
use cluster_mesh.Prelude.Dict.{Dict, get, get-put, values, member}
use cluster_mesh.Models.{TaskSpec, Job, JobState}
use cluster_mesh.Jobs.Manager.{
  JobManager, Store, Cancels, set_job, persist_job, persist_task, job_specs, find_job_for_task,
}
use cluster_mesh.Jobs.Outcome.{
  forget_run, settle_complete, finish_complete, on_task_complete, on_task_failed, cancel_job,
}
use cluster_mesh.Jobs.Dispatch.{Agents, dispatch, start_local_execution}
use cluster_mesh.Jobs.Resume.{
  load_jobs, load_tasks, load_job_tasks, with_checkpoint, redispatch, redispatch_all,
  resume_from_store,
}
use cluster_mesh.Recovery.Replication.{competes, on_replica_complete, on_replica_failure}
use cluster_mesh.Jobs.Completion.{settled, ended_returns, ended_raises}
use cluster_mesh.Jobs.Frames.{AllReturn, cancel_all-cancelled, cancel_all-SameJobs}

-- Cancelling a known job marks it CANCELLED in memory and writes nothing to the store, if the calls to
-- cancel its tasks return.
cancel_job_unsaved :
    (cancels : Cancels) (job_id : String) (job : Job) (m : JobManager)
    → get job_id m.jobs ≡ some job
    → job.job_id ≡ job_id
    → AllReturn cancels m.remotes (job_specs job_id m)
    → (get job_id (cancel_job cancels job_id m).1.jobs
        ≡ some (record job { state = JobState.cancelled }))
      × ((cancel_job cancels job_id m).1.state_store ≡ m.state_store)
unfolding cancel_job
cancel_job_unsaved cancels job_id job m known own all_return =
    rw (known, cancel_all-cancelled cancels (job_specs job_id m) m all_return, cancel_job)
      (
        get-put job.job_id job_id _ _ ∙ rw (own, eq_refl),
        (cancel_all-SameJobs cancels (job_specs job_id m) m).state_store,
      )

-- The callables and the remote agents that a round of the last loop depends on.
quiet_local : (task : TaskSpec) (m : JobManager) → task.fn ≡ none → start_local_execution task m ≡ m
unfolding start_local_execution
quiet_local task m h = rw h refl

quiet_dispatch :
    (agents : Agents) (now : ℕ) (task : TaskSpec) (job : Job) (m : JobManager)
    → task.fn ≡ none
    → m.remotes ≡ []
    → ((dispatch false agents now task job m).signals ≡ m.signals)
      × ((dispatch false agents now task job m).remotes ≡ [])
unfolding dispatch member
quiet_dispatch agents now task job m no_fn no_agents =
    ground (arith, λ (n : JobManager). quiet_local task n no_fn)

quiet_round :
    (agents : Agents) (now : ℕ) (store : Store) (task : TaskSpec) (m : JobManager)
    → task.fn ≡ none
    → m.remotes ≡ []
    → ((redispatch agents now store task m).signals ≡ m.signals)
      × ((redispatch agents now store task m).remotes ≡ [])
unfolding redispatch
quiet_round agents now store task m no_fn no_agents =
    let task' = with_checkpoint (get task.task_id store.checkpoints) task in
    let no_fn' : task'.fn ≡ none = ground arith in
    elim (Option-cases (find_job_for_task task' m)) [
      | inl e ↦ ground arith
      | inr (job, e) ↦ ground (arith, quiet_dispatch agents now task' job m no_fn' no_agents)
    ]

-- No task of the list has a callable.
abbrev NoCallables : List TaskSpec → Type 0
NoCallables [] = Unit
NoCallables (t ∷ ts) = (t.fn ≡ none) × NoCallables ts

quiet_rounds :
    (agents : Agents) (now : ℕ) (store : Store) (tasks : List TaskSpec) (m : JobManager)
    → NoCallables tasks
    → m.remotes ≡ []
    → (redispatch_all agents now store tasks m).signals ≡ m.signals
unfolding redispatch_all
quiet_rounds agents now store [] m none_has no_agents = refl
quiet_rounds agents now store (t ∷ ts) m none_has no_agents =
    let (same, still) = quiet_round agents now store t m none_has.0 no_agents in
    quiet_rounds agents now store ts (redispatch agents now store t m) none_has.1 still ∙ same

quiet_load_jobs :
    (jobs : List Job) (m : JobManager)
    → ((load_jobs jobs m).signals ≡ m.signals) × ((load_jobs jobs m).remotes ≡ m.remotes)
unfolding load_jobs
quiet_load_jobs [] m = (refl, refl)
quiet_load_jobs (j ∷ js) m = elim (Option-cases j.idempotency_key) [
  | inl e ↦ rw e (quiet_load_jobs js _)
  | inr (k, e) ↦ rw e (quiet_load_jobs js _)
]

quiet_load_tasks :
    (registry : String → Option String) (tasks : List TaskSpec) (d : Dict (List String))
    (m : JobManager)
    → ((load_tasks registry tasks d m).1.signals ≡ m.signals)
      × ((load_tasks registry tasks d m).1.remotes ≡ m.remotes)
unfolding load_tasks
quiet_load_tasks registry [] d m = (refl, refl)
quiet_load_tasks registry (t ∷ ts) d m = quiet_load_tasks registry ts _ _

quiet_load_job_tasks :
    (d : Dict (List String)) (m : JobManager)
    → ((load_job_tasks d m).signals ≡ m.signals) × ((load_job_tasks d m).remotes ≡ m.remotes)
unfolding load_job_tasks
quiet_load_job_tasks [] m = (refl, refl)
quiet_load_job_tasks ((id, ids) ∷ d) m = quiet_load_job_tasks d _

-- A new leader without remote agents starts and signals nothing when it resumes from a store whose
-- tasks came back without their callables, whatever the registry of tasks holds.
resume_starts_nothing :
    (agents : Agents) (registry : String → Option String) (now : ℕ) (store : Store) (m : JobManager)
    → NoCallables (values store.tasks)
    → m.remotes ≡ []
    → (resume_from_store agents registry now store m).signals ≡ m.signals
unfolding resume_from_store
resume_starts_nothing agents registry now store m none_has no_agents =
    let m₁ = load_jobs (values store.jobs) m in
    let loaded = load_tasks registry (values store.tasks) [] m₁ in
    let a = quiet_load_jobs (values store.jobs) m in
    let b = quiet_load_tasks registry (values store.tasks) [] m₁ in
    let c = quiet_load_job_tasks loaded.0 loaded.1 in
    quiet_rounds agents now store (values store.tasks) (load_job_tasks loaded.0 loaded.1) none_has
      (c.1 ∙ b.1 ∙ a.1 ∙ no_agents)
    ∙ c.0
    ∙ b.0
    ∙ a.0

persist_follower :
    (job : Job) (task : TaskSpec) (m : JobManager)
    → m.leads ≡ false
    → (persist_job job (persist_task task m)).state_store ≡ m.state_store
unfolding persist_job persist_task
persist_follower job task m h = ground arith

settle_frame :
    (cancels : Cancels) (spec : TaskSpec) (job : Job) (specs : List TaskSpec) (m : JobManager)
    → ((settle_complete cancels spec job specs m).2.state_store ≡ m.state_store)
      × ((settle_complete cancels spec job specs m).2.leads ≡ m.leads)
unfolding settle_complete on_replica_complete
settle_frame cancels spec job specs m =
    let won : Job = record job {
      state = JobState.completed;
      completed_task_id = some spec.task_id;
    } in
    ground
      (arith, cancel_all-SameJobs cancels (select (competes spec.task_id) specs) (set_job won m))

follower_completes :
    (cancels : Cancels) (spec : TaskSpec) (job : Job) (text : String) (m : JobManager)
    → m.leads ≡ false
    → (on_task_complete cancels spec job text m).1.state_store ≡ m.state_store
unfolding forget_run finish_complete
follower_completes cancels spec job text m h =
    let begun = settled cancels spec job text m in
    let (same, led) =
      settle_frame cancels spec job (job_specs job.job_id m) (forget_run spec.task_id m) in
    let done : Job = record (begun.1) { result = some text } in
    elim (Option-cases begun.0) [
      | inl e ↦
          rw (ended_returns cancels spec job text m e)
            (persist_follower done spec (set_job done begun.2) (led ∙ h) ∙ same)
      | inr (exc, e) ↦ rw (ended_raises cancels spec job text m exc e) same
    ]

follower_fails :
    (spec : TaskSpec) (job : Job) (text : String) (m : JobManager)
    → m.leads ≡ false
    → (on_task_failed spec job text m).state_store ≡ m.state_store
unfolding on_task_failed forget_run
follower_fails spec job text m h =
    let m₁ = forget_run spec.task_id m in
    let after = (on_replica_failure job spec (job_specs job.job_id m₁)).1 in
    let single : Job = record job { state = JobState.failed; error = some text } in
    ground (
      arith,
      persist_follower after spec (set_job after m₁) h,
      persist_follower single spec (set_job single m₁) h,
    )

-- A driver that does not lead writes nothing to the shared store when a task of its ends.
follower_writes_nothing :
    (cancels : Cancels) (spec : TaskSpec) (job : Job) (text : String) (m : JobManager)
    → m.leads ≡ false
    → ((on_task_complete cancels spec job text m).1.state_store ≡ m.state_store)
      × ((on_task_failed spec job text m).state_store ≡ m.state_store)
follower_writes_nothing cancels spec job text m h =
    (follower_completes cancels spec job text m h, follower_fails spec job text m h)

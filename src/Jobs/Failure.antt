-- ===== src/Jobs/Failure.antt =====
-- What the failure of a task does to its job.
use cluster_mesh.Prelude.{
  ◌≤◌, ◌<◌, String, Bool, ◌≡◌, ◌≢◌, refl, ap, ◌∙◌, true, false, some, List, [], ◌∷◌, arith, length,
  eq_refl, select,
}
use cluster_mesh.Prelude.Dict.{get, get-put}
use cluster_mesh.Models.{TaskSpec, Job, JobState}
use cluster_mesh.Recovery.Replication.{competes, still_active, on_replica_failure, all_failed}
use cluster_mesh.Jobs.Manager.{JobManager, set_job, persist_job, persist_task, job_specs}
use cluster_mesh.Jobs.Outcome.{forget_run, on_task_failed}
use cluster_mesh.Jobs.Frames.{job_specs-forget_run, persist_both-SameMemory}

module _ (spec : TaskSpec) (job : Job) (error : String) (m : JobManager) where
  abbrev specs : List TaskSpec
  specs = job_specs job.job_id m

  abbrev rest_of : JobManager
  rest_of = forget_run spec.task_id m

  abbrev goes_on : Bool × Job
  goes_on = still_active job spec (select (competes spec.task_id) specs)

  -- The method on its three branches.
  failed_tolerated :
      1 < length specs
      → goes_on.0 ≡ true
      → on_task_failed spec job error m
        ≡ persist_job goes_on.1 (persist_task spec (set_job goes_on.1 rest_of))
  unfolding on_task_failed on_replica_failure
  failed_tolerated several on = ground (arith, job_specs-forget_run job.job_id spec.task_id m)

  failed_last :
      1 < length specs
      → goes_on.0 ≡ false
      → on_task_failed spec job error m ≡ set_job goes_on.1 rest_of
  unfolding on_task_failed on_replica_failure
  failed_last several off = ground (arith, job_specs-forget_run job.job_id spec.task_id m)

  abbrev alone : Job
  alone = record job { state = JobState.failed; error = some error }

  failed_single :
      length specs ≤ 1
      → on_task_failed spec job error m
        ≡ persist_job alone (persist_task spec (set_job alone rest_of))
  unfolding on_task_failed
  failed_single single = ground (arith, job_specs-forget_run job.job_id spec.task_id m)

  goes_on_iff : (l : List TaskSpec) → l ≢ [] → still_active job spec l ≡ (true, job)
  goes_on_iff [] h = elim (h refl) [ ]
  goes_on_iff (s ∷ l) h = refl

  persisted :
      (j : Job)
      → j.job_id ≡ job.job_id
      → get job.job_id (persist_job j (persist_task spec (set_job j rest_of))).jobs ≡ some j
  persisted j same =
      ap (get job.job_id) (persist_both-SameMemory j spec (set_job j rest_of)).jobs
      ∙ get-put j.job_id job.job_id j rest_of.jobs
      ∙ rw (same, eq_refl)

  -- When a job has several replicas and no other may still run, the failure of one fails the job,
  -- and leaves the store as it was.
  last_failure_unsaved :
      1 < length specs
      → select (competes spec.task_id) specs ≡ []
      → (get job.job_id (on_task_failed spec job error m).jobs
          ≡ some (record job { state = JobState.failed; error = some (all_failed spec.task_id) }))
        × ((on_task_failed spec job error m).state_store ≡ m.state_store)
  unfolding forget_run
  last_failure_unsaved several gone =
      let off = ap (still_active job spec) gone in
      let now = failed_last several (ap (λ (r : Bool × Job). r.0) off) in
      rw (now, off) (get-put job.job_id job.job_id _ _ ∙ rw eq_refl, refl)

  -- While another replica may still run, the failure of one leaves the job as it is.
  failure_tolerated :
      select (competes spec.task_id) specs ≢ []
      → 1 < length specs
      → get job.job_id (on_task_failed spec job error m).jobs ≡ some job
  failure_tolerated others several =
      let on = goes_on_iff _ others in
      rw (failed_tolerated several (ap (λ (r : Bool × Job). r.0) on), on) (persisted job refl)

  -- The failure of a job's only task fails the job with the task's error.
  failure_fails :
      length specs ≤ 1
      → get job.job_id (on_task_failed spec job error m).jobs
        ≡ some (record job { state = JobState.failed; error = some error })
  failure_fails single = rw (failed_single single) (persisted alone refl)

-- ===== src/Jobs/Completion.antt =====
-- What the completion of a task does to its job, to the other replicas and to a duplicate.
use cluster_mesh.Prelude.{
  ◌≤◌, ◌<◌, String, ◌≡◌, refl, ap, ◌∙◌, true, Option, none, some, List, ◌++◌, map, arith, length,
  eq_refl, select, ◌⊎◌, inl, inr, Option-cases,
}
use cluster_mesh.Prelude.Dict.{get, get-put, Distinct}
use cluster_mesh.Prelude.Sort.{Has, Has-select_iff}
use cluster_mesh.Models.{TaskSpec, failed, Job, JobState}
use cluster_mesh.Recovery.Replication.{competes, on_replica_complete}
use cluster_mesh.Jobs.Manager.{JobManager, Cancels, set_job, cancel_signal, job_specs}
use cluster_mesh.Jobs.Outcome.{
  forget_run, cancel_all, settle_complete, after_duplicate, begin_complete, finish_complete,
  after_begin, on_task_complete,
}
use cluster_mesh.Jobs.Frames.{
  ids_of, duplicate_forgotten, job_specs-forget_run, SameMemory, persist_both-SameMemory, AllReturn,
  cancelled, cancel_all-cancelled, cancel_all-SameJobs, cancelled-failed, cancelled-signals,
}

module _ (cancels : Cancels) (spec : TaskSpec) (job : Job) (result : String) (m : JobManager) where
  abbrev pub specs : List TaskSpec
  specs = job_specs job.job_id m

  -- The other replicas that may still run.
  abbrev pub others : List TaskSpec
  others = select (competes spec.task_id) specs

  abbrev pub ended : Option String × JobManager
  ended = on_task_complete cancels spec job result m

  abbrev pub settled : Option String × Job × JobManager
  settled = settle_complete cancels spec job specs (forget_run spec.task_id m)

  -- The first part of the method, with the duplicate gone.
  begin_complete_lem : begin_complete cancels spec job m ≡ settled
  unfolding begin_complete
  begin_complete_lem =
      ap (after_duplicate cancels spec job) (duplicate_forgotten cancels spec.task_id m)
      ∙ ap (λ l. settle_complete cancels spec job l (forget_run spec.task_id m))
          (job_specs-forget_run job.job_id spec.task_id m)

  ended_lem : ended ≡ after_begin spec result settled
  unfolding on_task_complete
  ended_lem = ap (after_begin spec result) begin_complete_lem

  pub ended_returns :
      settled.0 ≡ none → ended ≡ (none, finish_complete spec settled.1 result settled.2)
  ended_returns h = ended_lem ∙ rw (h, after_begin) refl

  pub ended_raises : (exc : String) → settled.0 ≡ some exc → ended ≡ (some exc, settled.2)
  ended_raises exc h = ended_lem ∙ rw (h, after_begin) refl

  abbrev pub won : Job
  won = record job { state = JobState.completed; completed_task_id = some spec.task_id }

  abbrev pub before_cancels : JobManager
  before_cancels = set_job won (forget_run spec.task_id m)

  pub settled_several :
      1 < length specs
      → settled ≡ (
        (cancel_all cancels others before_cancels).0,
        won,
        (cancel_all cancels others before_cancels).1,
      )
  unfolding settle_complete on_replica_complete
  settled_several several = ground arith

  settled_alone :
      length specs ≤ 1
      → settled ≡ (
        none,
        record job { state = JobState.completed },
        set_job (record job { state = JobState.completed }) (forget_run spec.task_id m),
      )
  unfolding settle_complete
  settled_alone single = ground arith

  settled_job : (settled.1.job_id ≡ job.job_id) × (settled.1.state ≡ JobState.completed)
  unfolding settle_complete on_replica_complete
  settled_job = ground arith

  settled_result : settled.1.result ≡ job.result
  unfolding settle_complete on_replica_complete
  settled_result = ground arith

  one_or_several : (1 < length specs) ⊎ (length specs ≤ 1)
  one_or_several = grind arith

  -- The job is COMPLETED in memory before its result is set.
  settled_stored : get job.job_id settled.2.jobs ≡ some settled.1
  unfolding forget_run
  settled_stored = elim one_or_several [
    | inl several ↦ rw (settled_several several) (
        ap (get job.job_id) (cancel_all-SameJobs cancels others before_cancels).jobs
        ∙ get-put job.job_id job.job_id won m.jobs
        ∙ rw eq_refl)
    | inr single ↦ rw (settled_alone single) (get-put job.job_id job.job_id _ m.jobs ∙ rw eq_refl)
  ]

  -- A look in between finds the job COMPLETED with the result that it had before.
  pub begin_complete-stored :
      (during : Job) × (get job.job_id (begin_complete cancels spec job m).2.jobs ≡ some during)
      × (during.state ≡ JobState.completed)
      × (during.result ≡ job.result)
  begin_complete-stored =
      rw begin_complete_lem (settled.1, settled_stored, settled_job.1, settled_result)

  finished_stored :
      get job.job_id (finish_complete spec settled.1 result settled.2).jobs
      ≡ some (record (settled.1) { result = some result })
  unfolding finish_complete
  finished_stored =
      let done : Job = record (settled.1) { result = some result } in
      ap (get job.job_id) (persist_both-SameMemory done spec (set_job done settled.2)).jobs
      ∙ get-put done.job_id job.job_id done settled.2.jobs
      ∙ rw (settled_job.0, eq_refl)

  -- Whatever state the job is in, cancelled or completed before, the completion of a task leaves it
  -- COMPLETED with that task's result, if the method returns.
  pub completion_overwrites :
      ended.0 ≡ none
      → (after : Job) × (get job.job_id ended.1.jobs ≡ some after)
        × (after.state ≡ JobState.completed)
        × (after.result ≡ some result)
  completion_overwrites returns = elim (Option-cases settled.0) [
    | inl e ↦
        rw (ended_returns e)
          (record (settled.1) { result = some result }, finished_stored, settled_job.1, refl)
    | inr (exc, e) ↦ absurd (cc (returns, ended_raises exc e))
  ]

  -- The method returns when the calls to cancel the other replicas do.
  pub completion_returns : AllReturn cancels m.remotes others → ended.0 ≡ none
  unfolding forget_run
  completion_returns all_return = elim one_or_several [
    | inl several ↦ rw (
        ended_returns (
          ap (λ (s : Option String × Job × JobManager). s.0) (settled_several several)
          ∙ ap (λ (p : Option String × JobManager). p.0)
              (cancel_all-cancelled cancels others before_cancels all_return)))
    | inr single ↦
        rw (
          ended_returns (ap (λ (s : Option String × Job × JobManager). s.0) (settled_alone single)))
  ]

  finish_complete-SameMemory :
      (now : Job) (n : JobManager)
      → SameMemory
          (finish_complete spec now result n)
          (set_job (record now { result = some result }) n)
  unfolding finish_complete
  finish_complete-SameMemory now n =
      let done : Job = record now { result = some result } in
      persist_both-SameMemory done spec (set_job done n)

  -- Of a job with several replicas, where those that may still run have ids of their own, and the
  -- calls of agents to cancel these return, the first to complete is written down as the winner; every
  -- other that may still run becomes FAILED, and these are signalled, once each and in their order.
  pub completion_stops_replicas :
      (other : TaskSpec)
      → 1 < length specs
      → Distinct (ids_of others)
      → AllReturn cancels m.remotes others
      → Has other specs
      → competes spec.task_id other ≡ true
      → (ended.0 ≡ none)
        × (get other.task_id ended.1.tasks ≡ some (record other { state = failed }))
        × (ended.1.signals ≡ m.signals ++ map (cancel_signal m) others)
        × (get job.job_id ended.1.jobs
            ≡ some (record job {
              state = JobState.completed;
              result = some result;
              completed_task_id = some spec.task_id;
            }))
  unfolding forget_run
  completion_stops_replicas other several u all_return has may =
      let n = cancelled others before_cancels in
      let now : settled ≡ (none, won, n) =
        rw (
          settled_several several,
          cancel_all-cancelled cancels others before_cancels all_return,
        ) in
      let same = finish_complete-SameMemory won n in
      rw (ended_returns (ap (λ (s : Option String × Job × JobManager). s.0) now), now)
        (
          refl,
          ap (get other.task_id) same.tasks
              ∙ cancelled-failed other others before_cancels u
                  ((Has-select_iff (competes spec.task_id) other specs).1 (has, may)),
          same.signals ∙ cancelled-signals others before_cancels,
          ap (get job.job_id) same.jobs ∙ get-put job.job_id job.job_id _ n.jobs ∙ rw eq_refl,
        )

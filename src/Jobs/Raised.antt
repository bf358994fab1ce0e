-- ===== src/Jobs/Raised.antt =====
-- What is left of a completion in which the call to cancel a replica raises an exception.
use cluster_mesh.Prelude.{
  ◌<◌, String, ◌≡◌, refl, ap, ◌∙◌, true, false, Option, some, List, [], ◌∷◌, ◌++◌, map, arith,
  eq_refl, eq_iff, length, inl, inr,
}
use cluster_mesh.Prelude.Dict.{get, get-put, member, Distinct}
use cluster_mesh.Prelude.Sort.{Has}
use cluster_mesh.Models.{TaskSpec, Job, JobState}
use cluster_mesh.Jobs.Manager.{JobManager, Cancels, signal, cancel_signal, cancel_error}
use cluster_mesh.Jobs.Outcome.{forget_run}
use cluster_mesh.Jobs.Frames.{
  ids_of, AllReturn, cancelled, cancelled-SameJobs, cancelled-elsewhere, cancelled-signals,
  cancel_all-raised,
}
use cluster_mesh.Jobs.Completion.{
  specs, others, ended, settled, won, before_cancels, ended_raises, settled_several,
}

member-ids_of :
    (other : TaskSpec) (l : List TaskSpec) → Has other l → member other.task_id (ids_of l) ≡ true
unfolding member
member-ids_of other [] h = absurd h
member-ids_of other (s ∷ l) (inl e) =
    let same : s.task_id ≡ other.task_id = ap (λ (t : TaskSpec). t.task_id) e in
    ground (arith, eq_iff s.task_id other.task_id)
member-ids_of other (s ∷ l) (inr h) = ground (arith, member-ids_of other l h)

Has-append : (other : TaskSpec) (pre l : List TaskSpec) → Has other l → Has other (pre ++ l)
Has-append other [] l h = h
Has-append other (s ∷ pre) l h = inr (Has-append other pre l h)

-- A task of the rest has another id than those before it.
ids_apart :
    (other : TaskSpec) (pre l : List TaskSpec)
    → Distinct (ids_of (pre ++ l))
    → Has other l
    → member other.task_id (ids_of pre) ≡ false
unfolding member
ids_apart other [] l u h = refl
ids_apart other (s ∷ pre) l u h = ground (
  arith,
  ids_apart other pre l u.1 h,
  eq_iff s.task_id other.task_id,
  u.0,
  member-ids_of other (pre ++ l) (Has-append other pre l h),
)

module _ (cancels : Cancels) (spec : TaskSpec) (job : Job) (result : String) (m : JobManager)
    (pre post : List TaskSpec) (bad : TaskSpec) (exc : String) where
  -- Of a job with several replicas, where those that may still run have ids of their own, let the
  -- first complete, and let the call to cancel another, `bad`, raise an exception where those before
  -- it returned. The exception leaves the method with the job COMPLETED and its result as it was
  -- before, so without the task's; nothing is stored, and `bad` and the replicas after it keep their
  -- states, the latter without a signal.
  pub completion_cut_short :
      1 < length (specs cancels spec job result m)
      → others cancels spec job result m ≡ pre ++ bad ∷ post
      → Distinct (ids_of (pre ++ bad ∷ post))
      → AllReturn cancels m.remotes pre
      → cancel_error cancels m.remotes bad ≡ some exc
      → ((ended cancels spec job result m).0 ≡ some exc)
        × (get job.job_id (ended cancels spec job result m).1.jobs
            ≡ some
                (record job { state = JobState.completed; completed_task_id = some spec.task_id }))
        × ((ended cancels spec job result m).1.state_store ≡ m.state_store)
        × ((ended cancels spec job result m).1.signals
            ≡ m.signals ++ map (cancel_signal m) pre ++ cancel_signal m bad ∷ [])
        × ((other : TaskSpec)
            → Has other (bad ∷ post)
            → get other.task_id (ended cancels spec job result m).1.tasks
              ≡ get other.task_id m.tasks)
  unfolding forget_run
  completion_cut_short several split u return raises =
      let m₁ = before_cancels cancels spec job result m in
      let n = cancelled pre m₁ in
      let left = cancelled-SameJobs pre m₁ in
      let now : settled cancels spec job result m
          ≡ (some exc, won cancels spec job result m, signal (cancel_signal m₁ bad) n) =
        rw (
          settled_several cancels spec job result m several,
          split,
          cancel_all-raised cancels pre post bad exc m₁ return raises,
        ) in
      rw
        (
          ended_raises cancels spec job result m exc
              (ap (λ (s : Option String × Job × JobManager). s.0) now),
          now,
        )
        (
          refl,
          ap (get job.job_id) left.jobs ∙ get-put job.job_id job.job_id _ m.jobs ∙ rw eq_refl,
          left.state_store,
          ap (λ l. l ++ cancel_signal m bad ∷ []) (cancelled-signals pre m₁),
          λ other h.
              cancelled-elsewhere other.task_id pre m₁ (ids_apart other pre (bad ∷ post) u h),
        )

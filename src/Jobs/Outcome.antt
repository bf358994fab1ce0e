-- ===== src/Jobs/Outcome.antt =====
-- How a task's end reaches its job: `_on_task_complete`, `_on_task_failed`, `cancel_job`.
use Prim.Native.String.{◌++◌}
use cluster_mesh.Prelude.{String, Option, none, some, List, [], ◌∷◌, length, ltb, if◌then◌else◌}
use cluster_mesh.Prelude.Dict.{get, remove, discard}
use cluster_mesh.Models.{TaskSpec, failed, Job, JobState}
use cluster_mesh.Recovery.Replication.{on_replica_complete, on_replica_failure}
use cluster_mesh.Jobs.Manager.{
  JobManager, Cancels, set_task, set_job, persist_job, persist_task, cancel_task, job_specs,
}

-- `self._running.pop(...)` and `self.speculation.clear(...)`
unfoldable pub forget_run : String → JobManager → JobManager
forget_run task_id m = record m {
  running = discard task_id m.running;
  start_times = remove task_id m.start_times;
  speculative = remove task_id m.speculative;
}

-- `dup_id = self.speculation.duplicate_id(...)` and the cancelling of the duplicate, with the text of
-- an exception. Where the duplicate's task is unknown that is the KeyError's.
unfoldable pub cancel_duplicate : Cancels → String → JobManager → Option String × JobManager
cancel_duplicate cancels task_id m = elim (get task_id m.speculative) [
  | none ↦ (none, m)
  | some dup_id ↦ elim (get dup_id m.tasks) [
    | none ↦ (some ("'" ++ dup_id ++ "'"), m)
    | some dup ↦ cancel_task cancels dup m
  ]
]

-- `for other in …: self._cancel_task(other); other.state = TaskState.FAILED`, up to an exception.
unfoldable pub cancel_all : Cancels → List TaskSpec → JobManager → Option String × JobManager
cancel_all cancels [] m = (none, m)
cancel_all cancels (other ∷ rest) m =
    let (raised, m₁) = cancel_task cancels other m in
    let onward = cancel_all cancels rest (set_task (record other { state = failed }) m₁) in
    elim raised [ none ↦ onward | some exc ↦ (some exc, m₁) ]

-- The branch on the number of replicas: the job is COMPLETED before the first replica is cancelled.
unfoldable pub settle_complete :
    Cancels → TaskSpec → Job → List TaskSpec → JobManager → Option String × Job × JobManager
settle_complete cancels spec job all_specs m =
    if ltb 1 (length all_specs)
    then (let (job', to_cancel) = on_replica_complete job spec all_specs in
        let (raised, m₁) = cancel_all cancels to_cancel (set_job job' m) in (raised, job', m₁))
    else (let job' : Job = record job { state = JobState.completed } in
        (none, job', set_job job' m))

abbrev pub after_duplicate :
    Cancels → TaskSpec → Job → Option String × JobManager → Option String × Job × JobManager
after_duplicate cancels spec job (none, m) =
    settle_complete cancels spec job (job_specs job.job_id m) m
after_duplicate cancels spec job (some exc, m) = (some exc, job, m)

-- `_on_task_complete` up to the line that sets the result: what another thread can find before it.
unfoldable pub begin_complete :
    Cancels → TaskSpec → Job → JobManager → Option String × Job × JobManager
unfolding settle_complete
begin_complete cancels spec job m =
    after_duplicate cancels spec job
      (cancel_duplicate cancels spec.task_id (forget_run spec.task_id m))

-- The rest of it.
unfoldable pub finish_complete : TaskSpec → Job → String → JobManager → JobManager
finish_complete spec job result m =
    let done : Job = record job { result = some result } in
    persist_job done (persist_task spec (set_job done m))

abbrev pub after_begin :
    TaskSpec → String → Option String × Job × JobManager → Option String × JobManager
after_begin spec result (none, job, m) = (none, finish_complete spec job result m)
after_begin spec result (some exc, job, m) = (some exc, m)

-- With the text of an exception that leaves it.
unfoldable pub on_task_complete :
    Cancels → TaskSpec → Job → String → JobManager → Option String × JobManager
unfolding begin_complete finish_complete
on_task_complete cancels spec job result m =
    after_begin spec result (begin_complete cancels spec job m)

unfoldable pub on_task_failed : TaskSpec → Job → String → JobManager → JobManager
on_task_failed spec job error m =
    let m₁ = forget_run spec.task_id m in
    let all_specs = job_specs job.job_id m₁ in
    let (goes_on, job') = on_replica_failure job spec all_specs in
    let single : Job = record job { state = JobState.failed; error = some error } in
    if ltb 1 (length all_specs)
    then (if goes_on
        then persist_job job' (persist_task spec (set_job job' m₁))
        else set_job job' m₁)
    else persist_job single (persist_task spec (set_job single m₁))

-- Where a replica's cancellation raises an exception, the job is not marked.
unfoldable pub cancel_job : Cancels → String → JobManager → Option String × JobManager
unfolding cancel_all
cancel_job cancels job_id m = elim (get job_id m.jobs) [
  | none ↦ (none, m)
  | some job ↦
      let (raised, m₁) = cancel_all cancels (job_specs job_id m) m in
      elim raised [
        | none ↦ (none, set_job (record job { state = JobState.cancelled }) m₁)
        | some exc ↦ (some exc, m₁)
      ]
]

-- ===== src/Driver/Servicer/Ends.antt =====
-- From the end of a thread at an agent to the job at the driver.
use cluster_mesh.Prelude.{
  String, ◌≡◌, refl, ap, ◌∙◌, Bool, true, false, Option, none, some, ◌==◌, if◌then◌else◌,
}
use cluster_mesh.Prelude.Dict.{get}
use cluster_mesh.Models.{TaskSpec, completed, failed, Job, JobState}
use cluster_mesh.Execution.Context.{TaskContext, Outcome}
use cluster_mesh.Agent.Client.{TaskCompleteReport, on_complete, null}
use cluster_mesh.Agent.Client
use cluster_mesh.Agent.Runner.{AgentTaskRunner, run_ends, end_of_run}
use cluster_mesh.Jobs.Manager.{JobManager, Cancels, set_task, find_job_for_task}
use cluster_mesh.Jobs.Outcome.{on_task_complete}
use cluster_mesh.Jobs.Completion.{completion_overwrites}
use cluster_mesh.Driver.Servicer.{settle, end_task, task_complete, result_of}

-- What an agent reports of a callable's end: a return or an exception without a message as a
-- success, nothing of an interrupt or of an exception with the message `interrupted`, and any other
-- exception as a failure with its message.
abbrev pub told_of : Outcome → String → Option TaskCompleteReport
told_of (Outcome.returned result) id = some (record {
  task_id = id;
  success = true;
  result_json = if result == null then "" else result;
  error = "";
})
told_of Outcome.interrupted id = none
told_of (Outcome.raised error) id =
    if error == ""
    then some (record { task_id = id; success = true; result_json = ""; error = "" })
    else if error == "interrupted"
    then none
    else some (record { task_id = id; success = false; result_json = ""; error = error })

run_ends-report :
    (outcome : Outcome) (c : TaskContext) (r : AgentTaskRunner)
    → (run_ends outcome c r).0 ≡ told_of outcome c.task_spec.task_id
unfolding run_ends end_of_run on_complete Client.task_complete
run_ends-report (Outcome.returned result) c r = refl
run_ends-report Outcome.interrupted c r = refl
run_ends-report (Outcome.raised error) c r = refl

-- The driver's manager after a report of success about a task of a job.
settle_success :
    (cancels : Cancels) (report : TaskCompleteReport) (task : TaskSpec) (job : Job) (m : JobManager)
    → report.success ≡ true
    → settle cancels report task (some job) m
      ≡ on_task_complete cancels task job (result_of report) m
unfolding settle
settle_success cancels report task job m s = rw s

success_completes :
    (cancels : Cancels) (report : TaskCompleteReport) (task : TaskSpec) (job : Job) (m : JobManager)
    → report.success ≡ true
    → get report.task_id m.tasks ≡ some task
    → find_job_for_task task m ≡ some job
    → (task_complete cancels report m).1
      ≡ (on_task_complete cancels
          (record task { state = completed })
          job
          (result_of report)
          (set_task (record task { state = completed }) m)).1
unfolding task_complete end_task find_job_for_task
success_completes cancels report task job m s t j =
    let task' : TaskSpec = record task { state = completed } in
    ap (λ o. (end_task cancels report o m).1) t
    ∙ ap (λ b. ended_as b) s
    ∙ ap (λ o. (settle cancels report task' o (set_task task' m)).1) j
    ∙ ap (λ p. p.1) (settle_success cancels report task' job (set_task task' m) s)
  where
    ended_as : Bool → JobManager
    ended_as b =
        let task' : TaskSpec = record task { state = if b then completed else failed } in
        (settle cancels report task' (find_job_for_task task m) (set_task task' m)).1

-- A task whose callable raises an exception without a message (a failed bare `assert`, say) is a
-- success to the driver: whatever the agent's and the driver's state, its report makes the job
-- COMPLETED, if the driver knows the task and its job, and its own completion of the task returns.
empty_error_completes :
    (cancels : Cancels) (c : TaskContext) (r : AgentTaskRunner) (task : TaskSpec) (job : Job)
    (m : JobManager)
    → get c.task_spec.task_id m.tasks ≡ some task
    → find_job_for_task task m ≡ some job
    → (on_task_complete cancels
        (record task { state = completed })
        job
        null
        (set_task (record task { state = completed }) m)).0
      ≡ none
    → (report : TaskCompleteReport) × ((run_ends (Outcome.raised "") c r).0 ≡ some report)
      × (after : Job) × (get job.job_id (task_complete cancels report m).1.jobs ≡ some after)
      × (after.state ≡ JobState.completed)
empty_error_completes cancels c r task job m t j returns =
    let report : TaskCompleteReport = record {
      task_id = c.task_spec.task_id;
      success = true;
      result_json = "";
      error = "";
    } in
    let task' : TaskSpec = record task { state = completed } in
    let (after, stored, state, result) =
      completion_overwrites cancels task' job null (set_task task' m) returns in
    (
      report,
      run_ends-report (Outcome.raised "") c r,
      after,
      ap (λ (m : JobManager). get job.job_id m.jobs)
            (success_completes cancels report task job m refl t j)
          ∙ stored,
      state,
    )

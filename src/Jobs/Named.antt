-- ===== src/Jobs/Named.antt =====
-- `submit_remote_by_name` and `submit_notebook_cell` of mesh/driver/job_manager.py, up to their wait,
-- and `wait_for_job`. The ids of the job and the task are fresh, `live` is what `_live_nodes()`
-- answers.
use Prim.Native.String.{◌++◌}
use cluster_mesh.Prelude.{
  ℕ, String, Bool, true, false, Option, none, some, List, [], ◌∷◌, ◌==◌, if◌then◌else◌,
}
use cluster_mesh.Prelude.Dict.{Dict, get, put, member}
use cluster_mesh.Models.{Node, TaskSpec, pending, Job, JobState, is_terminal}
use cluster_mesh.Scheduler.Scoring.{Float}
use cluster_mesh.Scheduler.Placement.{PlacementEngine, place}
use cluster_mesh.Jobs.Manager.{JobManager, set_task, set_job, persist_job, persist_task}
use cluster_mesh.Jobs.Dispatch.{Agents, dispatch_remote}
use cluster_mesh.Jobs.Submit.{new_job, placed_at}

-- A `TaskSpec` of one core with the given fields; the rest are its defaults.
abbrev pub simple_spec : String → String → String → ℕ → Bool → ℕ → Dict String → TaskSpec
simple_spec name task_id job_id ram_gb checkpoint total_work state_data = record {
  name = name;
  requirements = record {
    cpu_cores = 1_000;
    ram_gb = ram_gb;
    gpu_count = 0;
    vram_gb = 0;
    cuda_version = none;
    network_gbps = 0;
    min_battery_pct = none;
  };
  pool = none;
  replicas = 1;
  checkpoint = checkpoint;
  checkpoint_interval = 30_000;
  preemption_ok = true;
  task_id = task_id;
  job_id = some job_id;
  replica_index = 0;
  state = pending;
  assigned_node = none;
  progress = 0;
  total_work = total_work;
  state_data = state_data;
  fn = none;
}

-- The job of one task enters the manager.
abbrev pub filed : Job → TaskSpec → JobManager → JobManager
filed job spec m = set_task spec (record m {
  jobs = put job.job_id job m.jobs;
  job_tasks = put job.job_id (spec.task_id ∷ []) m.job_tasks;
})

-- `job.state = RUNNING; job.task_ids = [spec.task_id]`
abbrev pub started : Job → TaskSpec → Job
started job spec = record job { state = JobState.running; task_ids = spec.task_id ∷ [] }

-- `_dispatch_remote`, which looks for the remote agent first.
unfoldable pub send : Agents → TaskSpec → Option String → Job → JobManager → JobManager
unfolding dispatch_remote
send agents spec none job m = m
send agents spec (some node) job m =
    if member node m.remotes then dispatch_remote true agents node spec job m else m

module _ (f : Float) (e : PlacementEngine) (hour : ℕ) (agents : Agents) (live : List Node) where
  unfoldable pub submit_remote_by_name :
      (name task_id job_id : String) (total_work : ℕ) (checkpoint : Bool) → JobManager → JobManager
  unfolding send
  submit_remote_by_name name task_id job_id total_work checkpoint m =
      let spec = simple_spec name task_id job_id 1_000 checkpoint total_work [] in
      let job = new_job name job_id none in
      let (spec', node) = placed_at spec (place f e spec live hour) in
      let job' = started job spec in
      send agents spec' node job' (set_job job' (set_task spec' (filed job spec m)))

  -- `none` where no worker is available, and RuntimeError is raised.
  unfoldable pub send_cell :
      Job → TaskSpec → TaskSpec × Option String → JobManager → Option String × JobManager
  unfolding send
  send_cell job spec (spec', none) m = (none, set_task spec' m)
  send_cell job spec (spec', some node) m =
      let job' = started job spec in
      (some job.job_id, send agents spec' (some node) job' (set_job job' (set_task spec' m)))

  unfoldable pub submit_notebook_cell :
      (code language task_id job_id : String) → JobManager → Option String × JobManager
  unfolding send_cell persist_job persist_task
  submit_notebook_cell code language task_id job_id m =
      let cell = ("code", code) ∷ ("language", language) ∷ [] in
      let spec = simple_spec "notebook.exec" task_id job_id 500 false 1_000 cell in
      let job = new_job ("notebook-" ++ language) job_id none in
      send_cell job spec (placed_at spec (place f e spec live hour))
        (persist_task spec (persist_job job (filed job spec m)))

-- How a wait ends: with the job's result, or by an exception with its message.
pub data Answer : Type 0 where
  result : Option String → Answer
  unknown_job : Answer
  timed_out : Answer
  raised : (message : String) → Answer

-- `job.error or "Job failed"`
abbrev message_of : Option String → String
message_of none = "Job failed"
message_of (some error) = if error == "" then "Job failed" else error

-- The end of `wait_for_job`, on a job in a final state.
unfoldable pub answer_of : Job → Answer
answer_of job = elim job.state [
  | JobState.failed ↦ raised (message_of job.error)
  | JobState.cancelled ↦ raised "Job was cancelled"
  | _ ↦ result job.result
]

-- What one look finds.
unfoldable pub look_at : Bool → Option Job → Option Answer
unfolding answer_of
look_at late none = some unknown_job
look_at late (some job) =
    if is_terminal job then some (answer_of job) else if late then some timed_out else none

-- One look of the loop, in which the deadline may have passed; `none` where it goes on.
unfoldable pub look : String → Bool → JobManager → Option Answer
unfolding look_at
look job_id late m = look_at late (get job_id m.jobs)

abbrev pub first_of : Option Answer → Option Answer → Option Answer
first_of none later = later
first_of (some answer) later = some answer

-- The loop over the looks that it takes, with the state of the manager at each; `none` where all of
-- them have passed and the wait goes on.
unfoldable pub wait_for_job : String → List (Bool × JobManager) → Option Answer
unfolding look
wait_for_job job_id [] = none
wait_for_job job_id ((late, m) ∷ looks) = first_of (look job_id late m) (wait_for_job job_id looks)

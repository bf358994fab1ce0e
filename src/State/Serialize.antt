-- ===== src/State/Serialize.antt =====
-- mesh/state/serialize.py: jobs and checkpoints; tasks and nodes are in the children. Enums are
-- written by their names.
pub mod Tasks
pub mod Nodes
use cluster_mesh.Prelude.{◌>>=◌, ℕ, String, Option, none, some, [], ◌∷◌, ◌==◌, not, if◌then◌else◌}
use cluster_mesh.Models.{Job, JobState, Checkpoint}
use cluster_mesh.State.Json.{
  Value, Members, members, of_texts, value_at, as_number, as_text, as_texts, as_dict, nullable,
  or_null, required, given, only,
}

abbrev pub job_state_name : JobState → String
job_state_name JobState.pending = "PENDING"
job_state_name JobState.running = "RUNNING"
job_state_name JobState.completed = "COMPLETED"
job_state_name JobState.failed = "FAILED"
job_state_name JobState.cancelled = "CANCELLED"

-- `JobState[name]`
abbrev pub job_state_of : String → Option JobState
job_state_of name =
    if name == "PENDING"
    then some JobState.pending
    else if name == "RUNNING"
    then some JobState.running
    else if name == "COMPLETED"
    then some JobState.completed
    else if name == "FAILED"
    then some JobState.failed
    else if name == "CANCELLED"
    then some JobState.cancelled
    else none

unfoldable pub job_to_dict : Job → Members
job_to_dict job = members (
    ("job_id", Value.text job.job_id)
    ∷ ("name", Value.text job.name)
    ∷ ("state", Value.text (job_state_name job.state))
    ∷ ("task_ids", Value.texts job.task_ids)
    ∷ ("result", or_null Value.text job.result)
    ∷ ("error", or_null Value.text job.error)
    ∷ ("idempotency_key", or_null Value.text job.idempotency_key)
    ∷ ("completed_task_id", or_null Value.text job.completed_task_id)
    ∷ [])

unfoldable pub job_from_dict : Members → Option Job
job_from_dict d = do
  job_id ← required as_text "job_id" d
  name ← given as_text "" "name" d
  state_name ← required as_text "state" d
  state ← job_state_of state_name
  task_ids ← given as_texts [] "task_ids" d
  result ← given (nullable as_text) none "result" d
  error ← given (nullable as_text) none "error" d
  idempotency_key ← given (nullable as_text) none "idempotency_key" d
  completed_task_id ← given (nullable as_text) none "completed_task_id" d
  some (record {
    job_id = job_id;
    name = name;
    state = state;
    task_ids = task_ids;
    result = result;
    error = error;
    idempotency_key = idempotency_key;
    completed_task_id = completed_task_id;
  })

unfoldable pub checkpoint_to_dict : Checkpoint → Members
unfolding of_texts
checkpoint_to_dict cp = members (
    ("task_id", Value.text cp.task_id)
    ∷ ("progress", Value.number cp.progress)
    ∷ ("state_data", Value.object (of_texts cp.state_data))
    ∷ ("timestamp", Value.number cp.timestamp)
    ∷ [])

unfoldable pub checkpoint_from_dict : Members → Option Checkpoint
unfolding only
checkpoint_from_dict d =
    if not (only ("task_id" ∷ "progress" ∷ "state_data" ∷ "timestamp" ∷ []) d) then none else do
      task_id ← required as_text "task_id" d
      progress ← required as_number "progress" d
      state_data ← given as_dict [] "state_data" d
      timestamp ← given as_number 0 "timestamp" d
      some (record {
        task_id = task_id;
        progress = progress;
        state_data = state_data;
        timestamp = timestamp;
      })

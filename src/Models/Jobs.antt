-- ===== src/Models/Jobs.antt =====
-- mesh/models/job.py.
use cluster_mesh.Prelude.{String, Bool, true, false, Option, List}

pub data JobState : Type 0 where
  pending running completed failed cancelled : JobState

pub record Job : Type 0 where
  pub job_id : String
  pub name : String
  pub state : JobState
  pub task_ids : List String
  pub result : Option String
  pub error : Option String
  pub idempotency_key : Option String
  pub completed_task_id : Option String

abbrev terminal : JobState → Bool
terminal JobState.completed = true
terminal JobState.failed = true
terminal JobState.cancelled = true
terminal _ = false

unfoldable pub is_terminal : Job → Bool
is_terminal job = terminal job.state

-- ===== src/Recovery/Checkpoints.antt =====
-- `CheckpointManager` of mesh/recovery/checkpoint.py: the last checkpoint of each task.
use cluster_mesh.Prelude.{ℕ, String, false, Option, none, some, [], ◌≡◌, arith, ◌==◌, eq_refl}
use cluster_mesh.Prelude.Dict.{Dict, get, put, get-put}
use cluster_mesh.Models.{TaskSpec, Checkpoint}

abbrev pub Checkpoints : Type 0
Checkpoints = Dict Checkpoint

-- `state_data or {}`
abbrev or_empty : Option (Dict String) → Dict String
or_empty none = []
or_empty (some d) = d

abbrev pub checkpoint_of : TaskSpec → Option (Dict String) → ℕ → Checkpoint
checkpoint_of task state_data timestamp = record {
  task_id = task.task_id;
  progress = task.progress;
  state_data = or_empty state_data;
  timestamp = timestamp;
}

unfoldable pub save : TaskSpec → Option (Dict String) → ℕ → Checkpoints → Checkpoint × Checkpoints
save task state_data timestamp cps =
    let cp = checkpoint_of task state_data timestamp in (cp, put task.task_id cp cps)

unfoldable pub load : String → Checkpoints → Option Checkpoint
load id cps = get id cps

unfoldable pub restore : TaskSpec → Checkpoints → TaskSpec
unfolding load
restore task cps = elim (load task.task_id cps) [
  | none ↦ task
  | some cp ↦ record task { progress = cp.progress; state_data = cp.state_data }
]

pub restore_found :
    (task : TaskSpec) (cps : Checkpoints) (cp : Checkpoint)
    → load task.task_id cps ≡ some cp
    → restore task cps ≡ record task { progress = cp.progress; state_data = cp.state_data }
unfolding restore
restore_found task cps cp h = ground arith

-- A task that is restored after another was saved gets back the progress and the user state of its
-- own last save, whatever became of it in between; nothing else of it changes.
restore-save :
    (task later other : TaskSpec) (state_data : Dict String) (o : Option (Dict String)) (t u : ℕ)
    (cps : Checkpoints)
    → later.task_id ≡ task.task_id
    → (other.task_id == task.task_id) ≡ false
    → restore later (save other o u (save task (some state_data) t cps).1).1
      ≡ record later { progress = task.progress; state_data = state_data }
restore-save task later other state_data o t u cps same apart =
    restore_found later (save other o u (save task (some state_data) t cps).1).1
      (checkpoint_of task (some state_data) t)
      (unfold load save in rw (same, get-put, apart, get-put, eq_refl))

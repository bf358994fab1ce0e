-- ===== src/Execution/Context.antt =====
-- `TaskContext` and `TaskExecutor.execute` of mesh/execution/executor.py. The clock's reading is the
-- argument `now`. `CheckpointManager.save` stores the very dictionary that is the context's `_state`,
-- where that is not empty: `shared` says whether the stored checkpoint holds it, and then every
-- update of the state is an update of the checkpoint.
use cluster_mesh.Prelude.{
  ℕ, ◌-◌, min, String, Bool, true, false, none, some, [], ◌∷◌, leb, ltb, if◌then◌else◌,
}
use cluster_mesh.Prelude.Dict.{Dict, get, put}
use cluster_mesh.Models.{TaskSpec, completed}
use cluster_mesh.Recovery.Checkpoints.{Checkpoints, save, load}

pub record TaskContext : Type 0 where
  pub task_spec : TaskSpec
  pub checkpoints : Checkpoints
  pub total_work : ℕ
  pub interrupt : Bool
  pub progress : ℕ
  pub state : Dict String
  pub last_checkpoint_at : ℕ
  pub shared : Bool

unfoldable pub restore_from_checkpoint : TaskContext → Bool × TaskContext
unfolding load
restore_from_checkpoint c = elim (load c.task_spec.task_id c.checkpoints) [
  | none ↦ (false, c)
  | some cp ↦ (
    true,
    record c {
      progress = cp.progress;
      state = cp.state_data;
      task_spec = record (c.task_spec) { progress = cp.progress; state_data = cp.state_data };
      shared = false;
    },
  )
]

-- `d.update(news)`
unfoldable pub update : Dict String → Dict String → Dict String
update [] d = d
update ((k, v) ∷ news) d = update news (put k v d)

abbrev pub is_empty : Dict String → Bool
is_empty [] = true
is_empty (x ∷ d) = false

-- The checkpoints after the state became `state`.
abbrev seen_in : Bool → String → Dict String → Checkpoints → Checkpoints
seen_in false id state cps = cps
seen_in true id state cps = elim (get id cps) [
  | none ↦ cps
  | some cp ↦ put id (record cp { state_data = state }) cps
]

-- `if state: self._state.update(state); self.task_spec.state_data = dict(self._state)`
unfoldable pub update_state : Dict String → TaskContext → TaskContext
update_state news c =
    let state = update news c.state in
    if is_empty news then c else record c {
      state = state;
      task_spec = record (c.task_spec) { state_data = state };
      checkpoints = seen_in c.shared c.task_spec.task_id state c.checkpoints;
    }

-- The rest of `checkpoint`.
unfoldable pub save_now : ℕ → TaskContext → TaskContext
unfolding save
save_now now c =
    let task : TaskSpec = record (c.task_spec) { progress = c.progress } in
    let (cp, cps) = save task (some c.state) now c.checkpoints in
    record c {
      task_spec = task;
      checkpoints = cps;
      last_checkpoint_at = now;
      shared = if is_empty c.state then false else true;
    }

unfoldable pub checkpoint : ℕ → Dict String → TaskContext → TaskContext
unfolding update_state save_now
checkpoint now news c = save_now now (update_state news c)

-- The part of `set_progress` after the interrupt's check: what it sets, and the periodic save.
unfoldable pub advance : ℕ → Dict String → TaskContext → TaskContext
unfolding update_state
advance value news c =
    let progress = min value c.total_work in
    update_state news
      (record c { progress = progress; task_spec = record (c.task_spec) { progress = progress } })

unfoldable pub save_if_due : ℕ → TaskContext → TaskContext
unfolding checkpoint
save_if_due now c =
    if c.task_spec.checkpoint
    then (if leb c.task_spec.checkpoint_interval (now - c.last_checkpoint_at)
        then checkpoint now [] c
        else c)
    else c

-- `true` where TaskInterrupted is raised.
unfoldable pub set_progress : ℕ → ℕ → Dict String → TaskContext → Bool × TaskContext
unfolding advance save_if_due checkpoint
set_progress now value news c =
    if c.interrupt
    then (true, checkpoint now [] c)
    else (false, save_if_due now (advance value news c))

-- How a callable ends.
pub data Outcome : Type 0 where
  returned : (result : String) → Outcome
  interrupted : Outcome
  raised : (error : String) → Outcome

abbrev pub fresh : TaskSpec → Checkpoints → TaskContext
fresh spec cps = record {
  task_spec = spec;
  checkpoints = cps;
  total_work = spec.total_work;
  interrupt = false;
  progress = 0;
  state = [];
  last_checkpoint_at = 0;
  shared = false;
}

-- `if spec.progress < spec.total_work: …; spec.state = COMPLETED`
abbrev pub finished : TaskSpec → TaskSpec
finished spec = record spec {
  progress = if ltb spec.progress spec.total_work then spec.total_work else spec.progress;
  state = completed;
}

abbrev pub after_run : Outcome → TaskContext → Outcome × TaskSpec × Checkpoints
after_run (Outcome.returned result) c =
    (Outcome.returned result, finished c.task_spec, c.checkpoints)
after_run Outcome.interrupted c = (Outcome.interrupted, c.task_spec, c.checkpoints)
after_run (Outcome.raised error) c = (Outcome.raised error, c.task_spec, c.checkpoints)

-- `execute`; an interrupt gives no result and no exception.
unfoldable pub execute :
    (TaskContext → Outcome × TaskContext)
    → TaskSpec
    → Checkpoints
    → Outcome × TaskSpec × Checkpoints
unfolding restore_from_checkpoint
execute fn spec cps =
    let (outcome, c) = fn (restore_from_checkpoint (fresh spec cps)).1 in after_run outcome c

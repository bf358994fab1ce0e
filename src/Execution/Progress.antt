-- ===== src/Execution/Progress.antt =====
-- What a context saves, and what the next run of the task gets back.
use cluster_mesh.Prelude.{
  ℕ, ◌-◌, ◌<◌, ◌≤◌, String, true, false, some, ◌≡◌, refl, ap, ◌∙◌, arith, eq_refl,
}
use cluster_mesh.Prelude.Dict.{Dict, get, put, get-put}
use cluster_mesh.Models.{TaskSpec, Checkpoint}
use cluster_mesh.Recovery.Checkpoints.{save, load}
use cluster_mesh.Execution.Context.{
  TaskContext, restore_from_checkpoint, update, is_empty, update_state, save_now, checkpoint,
  advance, save_if_due, set_progress, fresh,
}

-- The task's progress is the context's, and no more than the work there is.
pub record InStep (c : TaskContext) : Type 0 where
  pub same : c.task_spec.progress ≡ c.progress
  pub bounded : c.progress ≤ c.total_work

-- `set_progress` keeps the task's progress equal to the context's and within the work, whether it is
-- interrupted, saves, or does neither.
pub set_progress-InStep :
    (now value : ℕ) (news : Dict String) (c : TaskContext)
    → InStep c
    → InStep (set_progress now value news c).1
unfolding set_progress advance save_if_due checkpoint update_state save_now save
set_progress-InStep now value news c i = ground arith

saved :
    (now : ℕ) (c : TaskContext)
    → load c.task_spec.task_id (save_now now c).checkpoints
      ≡ some (record {
        task_id = c.task_spec.task_id;
        progress = c.progress;
        state_data = c.state;
        timestamp = now;
      })
unfolding save_now save load
saved now c = get-put c.task_spec.task_id c.task_spec.task_id _ c.checkpoints ∙ rw eq_refl refl

abbrev saved_at : ℕ → TaskContext → Checkpoint
saved_at now c = record {
  task_id = c.task_spec.task_id;
  progress = c.progress;
  state_data = c.state;
  timestamp = now;
}

not_due :
    (at now value : ℕ) (news : Dict String) (c : TaskContext)
    → c.interrupt ≡ false
    → is_empty news ≡ false
    → now - at < c.task_spec.checkpoint_interval
    → (set_progress now value news (save_now at c)).1 ≡ advance value news (save_now at c)
unfolding set_progress save_if_due advance update_state save_now
not_due at now value news c running some_news soon = ground arith

shared_after :
    (now : ℕ) (c : TaskContext) → is_empty c.state ≡ false → (save_now now c).shared ≡ true
unfolding save_now
shared_after now c full = ground arith

after_save :
    (now : ℕ) (c : TaskContext)
    → ((save_now now c).state ≡ c.state)
      × ((save_now now c).task_spec.task_id ≡ c.task_spec.task_id)
unfolding save_now
after_save now c = (refl, refl)

seen :
    (at value : ℕ) (news : Dict String) (c : TaskContext)
    → is_empty c.state ≡ false
    → is_empty news ≡ false
    → (advance value news (save_now at c)).checkpoints
      ≡ put c.task_spec.task_id
          (record (saved_at at c) { state_data = update news c.state })
          (save_now at c).checkpoints
unfolding advance update_state load
seen at value news c full some_news =
    ground (arith, saved at c, shared_after at c full, after_save at c)

-- An interrupted task is saved before it stops: the next run of the same task starts with the
-- progress and the state that the context had.
pub interrupted-restores :
    (now value : ℕ) (news : Dict String) (c : TaskContext) (next : TaskSpec)
    → c.interrupt ≡ true
    → next.task_id ≡ c.task_spec.task_id
    → ((set_progress now value news c).0 ≡ true)
      × ((restore_from_checkpoint
            (fresh next (set_progress now value news c).1.checkpoints)).1.progress
          ≡ c.progress)
      × ((restore_from_checkpoint
            (fresh next (set_progress now value news c).1.checkpoints)).1.state
          ≡ c.state)
unfolding set_progress checkpoint update_state restore_from_checkpoint
interrupted-restores now value news c next stop same = ground (arith, saved now c)

-- When the state that was saved is not empty, a later `set_progress` with news of the state, not
-- interrupted and before the interval has passed, changes the stored checkpoint's user state at
-- once, and leaves its progress as it was.
checkpoint_drifts :
    (at now value : ℕ) (news : Dict String) (c : TaskContext)
    → c.interrupt ≡ false
    → is_empty c.state ≡ false
    → is_empty news ≡ false
    → now - at < c.task_spec.checkpoint_interval
    → (cp : Checkpoint) × (load c.task_spec.task_id
          (set_progress now value news (save_now at c)).1.checkpoints
        ≡ some cp)
      × (cp.progress ≡ c.progress)
      × (cp.state_data ≡ update news c.state)
unfolding load
checkpoint_drifts at now value news c running full some_news soon =
    let cp : Checkpoint = record (saved_at at c) { state_data = update news c.state } in
    (
      cp,
      ap (λ (d : TaskContext). get c.task_spec.task_id d.checkpoints)
            (not_due at now value news c running some_news soon)
          ∙ ap (get c.task_spec.task_id) (seen at value news c full some_news)
          ∙ get-put c.task_spec.task_id c.task_spec.task_id cp (save_now at c).checkpoints
          ∙ rw eq_refl refl,
      refl,
      refl,
    )

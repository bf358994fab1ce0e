-- ===== src/Execution/Executor.antt =====
-- The interrupts of `TaskExecutor`, mesh/execution/executor.py: an event for each task that is being
-- executed, by the task's id, set or not. `JobManager._start_local_execution` clears a task's event
-- before it executes the task.
use cluster_mesh.Prelude.{String, ◌≡◌, ap, ◌∙◌, Bool, true, false, Option, none, some, eq_refl}
use cluster_mesh.Prelude.Dict.{Dict, get, get_or, put, remove, get-put}

abbrev pub Interrupts : Type 0
Interrupts = Dict Bool

abbrev pub set_event : Bool → String → Option Bool → Interrupts → Interrupts
set_event value task_id none i = i
set_event value task_id (some _) i = put task_id value i

unfoldable pub interrupt : String → Interrupts → Interrupts
interrupt task_id i = set_event true task_id (get task_id i) i

unfoldable pub clear_interrupt : String → Interrupts → Interrupts
clear_interrupt task_id i = set_event false task_id (get task_id i) i

-- `self._interrupts[spec.task_id] = ctx.interrupt`, of a context that is new.
unfoldable pub enter : String → Interrupts → Interrupts
enter task_id i = put task_id false i

-- `self._interrupts.pop(spec.task_id, None)`
unfoldable pub leave : String → Interrupts → Interrupts
leave task_id i = remove task_id i

-- What the context of the task sees.
abbrev pub is_interrupted : String → Interrupts → Bool
is_interrupted task_id i = get_or false task_id i

interrupt_unknown :
    (task_id : String) (i : Interrupts) → get task_id i ≡ none → interrupt task_id i ≡ i
unfolding interrupt
interrupt_unknown task_id i h = ap (λ o. set_event true task_id o i) h

clear_unknown :
    (task_id : String) (i : Interrupts) → get task_id i ≡ none → clear_interrupt task_id i ≡ i
unfolding clear_interrupt
clear_unknown task_id i h = ap (λ o. set_event false task_id o i) h

entered : (task_id : String) (i : Interrupts) → get task_id (enter task_id i) ≡ some false
unfolding enter
entered task_id i = rw (get-put, eq_refl)

interrupt_known :
    (task_id : String) (b : Bool) (i : Interrupts)
    → get task_id i ≡ some b
    → get task_id (interrupt task_id i) ≡ some true
unfolding interrupt
interrupt_known task_id b i h =
    ap (λ o. get task_id (set_event true task_id o i)) h ∙ rw (get-put, eq_refl)

-- An interrupt reaches a task while it is being executed, and only then: one that comes after the
-- task's thread was started, but before the executor registered the task, is lost.
pub interrupt-enter :
    (task_id : String) (i : Interrupts)
    → get task_id i ≡ none
    → (is_interrupted task_id (interrupt task_id (enter task_id (clear_interrupt task_id i)))
        ≡ true)
      × (is_interrupted task_id (enter task_id (clear_interrupt task_id (interrupt task_id i)))
          ≡ false)
unfolding interrupt
interrupt-enter task_id i h = (
  ap (λ o. known_or o)
      (interrupt_known task_id false (enter task_id (clear_interrupt task_id i))
        (entered task_id (clear_interrupt task_id i))),
  ap (λ o. known_or o) (entered task_id (clear_interrupt task_id (interrupt task_id i))),
)
  where
    known_or : Option Bool → Bool
    known_or none = false
    known_or (some b) = b

-- ===== src/Agent/Runner/Cancelled.antt =====
-- What cancelling a task at an agent does to its thread.
use cluster_mesh.Prelude.{String, true, false, ◌≡◌, refl, ap, ◌∙◌, some, List, [], arith, eq_refl}
use cluster_mesh.Prelude.Dict.{member, member-discard}
use cluster_mesh.Execution.Context.{TaskContext, Outcome}
use cluster_mesh.Agent.Runner.{
  StateJson, TaskAssignment, AgentTaskRunner, new_runner, assign, cancel, pause, interrupt,
  run_ends,
}

-- The runners that an agent comes to: its calls, and the ends of its threads, in any order.
pub data Reached (json : StateJson) : AgentTaskRunner → Type 0 where
  new : Reached json new_runner
  assigned :
      {r : AgentTaskRunner} (registered : List String) (a : TaskAssignment json.Text)
      → Reached json r
      → Reached json (assign json registered a r).1
  paused :
      {r : AgentTaskRunner} (task_id : String) → Reached json r → Reached json (pause task_id r)
  cancelled :
      {r : AgentTaskRunner} (task_id : String) → Reached json r → Reached json (cancel task_id r)
  ended :
      {r : AgentTaskRunner} (outcome : Outcome) (c : TaskContext)
      → Reached json r
      → Reached json (run_ends outcome c r).1

assign-interrupts :
    (json : StateJson) (registered : List String) (a : TaskAssignment json.Text)
    (r : AgentTaskRunner)
    → (assign json registered a r).1.interrupts ≡ r.interrupts
unfolding assign
assign-interrupts json registered a r = ground arith

interrupt-interrupts :
    (task_id : String) (r : AgentTaskRunner) → (interrupt task_id r).interrupts ≡ r.interrupts
unfolding interrupt
interrupt-interrupts task_id r = ground arith

-- No interrupt is ever registered.
Reached-interrupts : (json : StateJson) (r : AgentTaskRunner) → Reached json r → r.interrupts ≡ []
unfolding pause cancel run_ends
Reached-interrupts json _ new = refl
Reached-interrupts json _ (assigned {r = r} registered a h) =
    assign-interrupts json registered a r ∙ Reached-interrupts json r h
Reached-interrupts json _ (paused {r = r} task_id h) =
    interrupt-interrupts task_id r ∙ Reached-interrupts json r h
Reached-interrupts json _ (cancelled {r = r} task_id h) =
    interrupt-interrupts task_id r ∙ Reached-interrupts json r h
Reached-interrupts json _ (ended {r = r} outcome c h) = Reached-interrupts json r h

interrupt_nothing :
    (task_id : String) (r : AgentTaskRunner) → r.interrupts ≡ [] → interrupt task_id r ≡ r
unfolding interrupt member
interrupt_nothing task_id r h = rw h

assign_accepts :
    (json : StateJson) (registered : List String) (a : TaskAssignment json.Text)
    (r : AgentTaskRunner)
    → member a.task_id r.running ≡ false
    → member a.task_name registered ≡ true
    → (assign json registered a r).0 ≡ some true
unfolding assign
assign_accepts json registered a r idle known = rw (idle, known)

cancelled_idle :
    (task_id : String) (r : AgentTaskRunner) → member task_id (cancel task_id r).running ≡ false
unfolding cancel
cancelled_idle task_id r =
    rw (member-discard task_id task_id (interrupt task_id r).running, eq_refl task_id)

-- Whatever an agent did before, pausing a task changes nothing of the runner, and cancelling it sets
-- no thread's interrupt: the thread runs on, while the runner takes the task for another run.
cancel_runs_on :
    (json : StateJson) (registered : List String) (a : TaskAssignment json.Text)
    (r : AgentTaskRunner)
    → Reached json r
    → member a.task_name registered ≡ true
    → (pause a.task_id r ≡ r)
      × ((cancel a.task_id r).started ≡ r.started)
      × ((assign json registered a (cancel a.task_id r)).0 ≡ some true)
unfolding pause cancel
cancel_runs_on json registered a r h known =
    let none_set = interrupt_nothing a.task_id r (Reached-interrupts json r h) in
    (
      none_set,
      ap (λ (s : AgentTaskRunner). s.started) none_set,
      assign_accepts json registered a (cancel a.task_id r) (cancelled_idle a.task_id r) known,
    )

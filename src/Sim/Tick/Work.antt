-- ===== src/Sim/Tick/Work.antt =====
-- What the ticks make of a running task.
use cluster_mesh.Prelude.{
  ℕ, zero, suc, ◌+◌, ◌*◌, ◌<◌, String, ◌≡◌, refl, ap, ◌∙◌, Bool, true, false, Option, some, [], ◌∷◌,
  arith, leb, ◌==◌, if◌then◌else◌, Bool-cases, inl, inr,
}
use cluster_mesh.Prelude.Dict.{Dict, get}
use cluster_mesh.Models.{TaskSpec, running, completed}
use cluster_mesh.Recovery.Checkpoints.{Checkpoints}
use cluster_mesh.Scheduler.Scoring.{Float}
use cluster_mesh.Sim.Cluster.{Sim}
use cluster_mesh.Sim.Tick.{advance_task, advance_tasks, complete_task, complete_tasks, work}

-- A task after a tick's work on it.
abbrev worked : ℕ → ℕ → TaskSpec → TaskSpec
worked tick now t = complete_task (advance_task tick now t []).0

advance_task-checkpoints :
    (tick now : ℕ) (t : TaskSpec) (a b : Checkpoints)
    → (advance_task tick now t a).0 ≡ (advance_task tick now t b).0
unfolding advance_task
advance_task-checkpoints tick now t a b = ground arith

-- One step of a lookup in a dictionary whose values were mapped.
mapped_entry :
    {A B : Type 0} (g : A → B) (here : Bool) (u t : A) (v : B) (o : Option A) (p : Option B)
    → v ≡ g u
    → (o ≡ some t → p ≡ some (g t))
    → (if here then some u else o) ≡ some t
    → (if here then some v else p) ≡ some (g t)
mapped_entry g true u t v o p e rest h = ground arith
mapped_entry g false u t v o p e rest h = rest h

get-advance_tasks :
    (tick now : ℕ) (id : String) (t : TaskSpec) (tasks : Dict TaskSpec) (cps : Checkpoints)
    → get id tasks ≡ some t
    → get id (advance_tasks tick now tasks cps).0 ≡ some (advance_task tick now t []).0
unfolding get advance_tasks
get-advance_tasks tick now id t [] cps h = absurd (ground arith)
get-advance_tasks tick now id t ((j, u) ∷ tasks) cps h =
    let (v, cps') = advance_task tick now u cps in
    mapped_entry (λ x. (advance_task tick now x []).0) (j == id) u t v (get id tasks)
      (get id (advance_tasks tick now tasks cps').0) (advance_task-checkpoints tick now u cps [])
      (get-advance_tasks tick now id t tasks cps') h

get-complete_tasks :
    (id : String) (t : TaskSpec) (tasks : Dict TaskSpec)
    → get id tasks ≡ some t
    → get id (complete_tasks tasks) ≡ some (complete_task t)
unfolding get complete_tasks
get-complete_tasks id t [] h = absurd (ground arith)
get-complete_tasks id t ((j, u) ∷ tasks) h =
    mapped_entry complete_task (j == id) u t (complete_task u) (get id tasks)
      (get id (complete_tasks tasks)) refl (get-complete_tasks id t tasks) h

-- Where a running task stands after work on it: short of its end it is RUNNING and has progressed by the
-- ticks; else it is COMPLETED with its whole work done.
abbrev pub done_after : ℕ → TaskSpec → TaskSpec
done_after amount t =
    if leb t.total_work (t.progress + amount)
    then record t { progress = t.total_work; state = completed }
    else record t { progress = t.progress + amount }

worked_running :
    (tick now : ℕ) (t : TaskSpec) → t.state ≡ running → worked tick now t ≡ done_after tick t
unfolding advance_task complete_task
worked_running tick now t r = ground (arith, r)

worked_completed : (tick now : ℕ) (t : TaskSpec) → t.state ≡ completed → worked tick now t ≡ t
unfolding advance_task complete_task
worked_completed tick now t r = ground (arith, r)

done_again :
    (a b : ℕ) (t : TaskSpec)
    → leb t.total_work (t.progress + a) ≡ false
    → done_after b (done_after a t) ≡ done_after (a + b) t
done_again a b t h = ground arith

done_none : (t : TaskSpec) → t.progress < t.total_work → t ≡ done_after 0 t
done_none t l = ground arith

done_completed :
    (a : ℕ) (t : TaskSpec)
    → leb t.total_work (t.progress + a) ≡ true
    → (done_after a t).state ≡ completed
done_completed a t h = rw h

done_running :
    (a : ℕ) (t : TaskSpec)
    → leb t.total_work (t.progress + a) ≡ false
    → t.state ≡ running
    → (done_after a t).state ≡ running
done_running a t h r = rw h r

done_progress :
    (a : ℕ) (t : TaskSpec)
    → leb t.total_work (t.progress + a) ≡ false
    → (done_after a t).progress < (done_after a t).total_work
done_progress a t h = ground arith

no_ticks : (tick : ℕ) → 0 ≡ 0 * tick
no_ticks tick = omega arith

suc_ticks : (n tick : ℕ) → tick + n * tick ≡ suc n * tick
suc_ticks n tick = omega arith

done_over :
    (a b : ℕ) (t : TaskSpec)
    → leb t.total_work (t.progress + a) ≡ true
    → done_after a t ≡ done_after (a + b) t
done_over a b t h = ground arith

module _ (f : Float) (hour : ℕ) (manager : Option (String → Sim → Sim)) where
  get-work :
      (id : String) (t : TaskSpec) (env : Sim)
      → get id env.world.tasks ≡ some t
      → get id (work f hour manager env).world.tasks
        ≡ some (worked env.world.tick_interval env.world.time t)
  unfolding work
  get-work id t env h =
      let w = env.world in
      get-complete_tasks id (advance_task w.tick_interval w.time t []).0
        (advance_tasks w.tick_interval w.time w.tasks w.checkpoints).0
        (get-advance_tasks w.tick_interval w.time id t w.tasks w.checkpoints h)

  -- The work of several ticks.
  abbrev pub work_times : ℕ → Sim → Sim
  work_times zero env = env
  work_times (suc n) env = work_times n (work f hour manager env)

  work_times_completed :
      (n : ℕ) (id : String) (t : TaskSpec) (env : Sim)
      → get id env.world.tasks ≡ some t
      → t.state ≡ completed
      → get id (work_times n env).world.tasks ≡ some t
  work_times_completed zero id t env h r = h
  work_times_completed (suc n) id t env h r =
      work_times_completed n id t (work f hour manager env)
        (get-work id t env h
          ∙ ap some (worked_completed env.world.tick_interval env.world.time t r))
        r

  -- A running task with work left is, after the work of any number of ticks, RUNNING with a tick's
  -- progress for each, or COMPLETED with its whole work done: it completes in the tick in which its
  -- progress reaches the work, and then stays as it is.
  pub work_times-done :
      (n : ℕ) (id : String) (t : TaskSpec) (env : Sim)
      → get id env.world.tasks ≡ some t
      → t.state ≡ running
      → t.progress < t.total_work
      → get id (work_times n env).world.tasks ≡ some (done_after (n * env.world.tick_interval) t)
  unfolding work
  work_times-done zero id t env h r l =
      h
      ∙ ap some (done_none t l)
      ∙ ap (λ a. some (done_after a t)) (no_ticks env.world.tick_interval)
  work_times-done (suc n) id t env h r l =
      let tick = env.world.tick_interval in
      let after = get-work id t env h ∙ ap some (worked_running tick env.world.time t r) in
      elim (Bool-cases (leb t.total_work (t.progress + tick))) [
        | inl over ↦
            work_times_completed n id (done_after tick t) (work f hour manager env) after
              (done_completed tick t over)
            ∙ ap some (done_over tick (n * tick) t over)
            ∙ ap (λ a. some (done_after a t)) (suc_ticks n tick)
        | inr short ↦
            work_times-done n id (done_after tick t) (work f hour manager env) after
              (done_running tick t short r) (done_progress tick t short)
            ∙ ap some (done_again tick (n * tick) t short)
            ∙ ap (λ a. some (done_after a t)) (suc_ticks n tick)
      ]

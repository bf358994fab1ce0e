-- ===== src/Sim/Tick/Ends.antt =====
-- The clock of a simulation, and the end of `run`.
use cluster_mesh.Prelude.{
  ℕ, zero, suc, ◌+◌, ◌*◌, ◌≤◌, ◌<◌, String, ◌≡◌, refl, ap, ◌∙◌, true, false, Option, none, some,
  List, [], ◌∷◌, ◌⊎◌, arith, ltb, ltb→lt, leb, Bool-cases, inl, inr,
}
use cluster_mesh.Models.{TaskSpec, dead, same_state}
use cluster_mesh.Health.Registry
use cluster_mesh.Health.Registry.{Callback}
use cluster_mesh.Health.Still.{
  IsStill, force_state-still, record_heartbeat-still, evaluate_all-still,
}
use cluster_mesh.Prelude.Dict.{values}
use cluster_mesh.Recovery.Stealing.{find_orphaned_tasks}
use cluster_mesh.Scheduler.Scoring.{Float}
use cluster_mesh.Scheduler.Placement.{Placement, place}
use cluster_mesh.Sim.Agent.{SimAgent, kill}
use cluster_mesh.Sim.Cluster.{
  SimCluster, Sim, SimEvent, Action, nodes_of, filed, without_agent, noted_change, answer_death,
  live_nodes, rescue, handle_node_death, on_state_change, submit, assign_placed,
}
use cluster_mesh.Sim.Tick.{
  named_agent, left, perform, perform_due, heartbeats, work, tick, advance, run,
}

-- The reading of the clock, its step, and the queue.
abbrev pub frame : SimCluster → ℕ × ℕ × List SimEvent
frame w = (w.time, w.tick_interval, w.events)

-- The first two of these.
abbrev clock : SimCluster → ℕ × ℕ
clock w = (w.time, w.tick_interval)

nodes_of-world : (agents : List SimAgent) (env : Sim) → (nodes_of agents env).1.world ≡ env.world
unfolding nodes_of Registry.get_state
nodes_of-world [] env = refl
nodes_of-world (a ∷ agents) env = elim (Bool-cases a.alive) [
  | inl e ↦ rw e (nodes_of-world agents (Registry.get_state env.world.time a.node_id env).1)
  | inr e ↦ rw e (nodes_of-world agents env)
]

live_nodes-world : (env : Sim) → (live_nodes env).1.world ≡ env.world
unfolding live_nodes
live_nodes-world env = nodes_of-world env.world.agents env

-- An attached job manager leaves the clock and the queue alone.
abbrev pub LeavesFrame : Option (String → Sim → Sim) → Type 0
LeavesFrame none = Unit
LeavesFrame (some handle) =
    (id : String) (env : Sim) → frame (handle id env).world ≡ frame env.world

before_end :
    (last next : Sim) (until time step : ℕ)
    → time < until
    → next.world.time ≡ time + step
    → next.world.tick_interval ≡ step
    → (last ≡ next) ⊎ (last.world.time < until + next.world.tick_interval)
    → last.world.time < until + step
before_end last next until time step l t s (inl e) =
    let same : last.world.time ≡ next.world.time = ap (λ (env : Sim). env.world.time) e in
    omega arith
before_end last next until time step l t s (inr near) = omega arith

module _ (f : Float) (hour : ℕ) where
  rescue-frame :
      (ts : List TaskSpec) (env : Sim) → frame (rescue f hour ts env).world ≡ frame env.world
  unfolding rescue
  rescue-frame [] env = refl
  rescue-frame (t ∷ ts) env = ap frame (live_nodes-world env)

  handle_node_death-frame :
      (id : String) (env : Sim) → frame (handle_node_death f hour id env).world ≡ frame env.world
  unfolding handle_node_death
  handle_node_death-frame id env =
      rescue-frame (find_orphaned_tasks (values env.world.tasks) (id ∷ [])) (without_agent id env)

  assign_placed-frame :
      (task : TaskSpec) (o : Option (Placement f)) (env : Sim)
      → frame (assign_placed task o env).1.world ≡ frame env.world
  unfolding assign_placed
  assign_placed-frame task none env = refl
  assign_placed-frame task (some p) env = refl

  submit-frame :
      (task : TaskSpec) (env : Sim) → frame (submit f hour task env).1.world ≡ frame env.world
  unfolding submit
  submit-frame task env =
      let (nodes, env') = live_nodes (filed task env) in
      assign_placed-frame task (place f env.world.placement_engine task nodes hour) env'
      ∙ ap frame (live_nodes-world (filed task env))

  answer_death-frame :
      (manager : Option (String → Sim → Sim)) (id : String) (env : Sim)
      → LeavesFrame manager
      → frame (answer_death f hour manager id env).world ≡ frame env.world
  unfolding answer_death
  answer_death-frame none id env still = handle_node_death-frame id env
  answer_death-frame (some handle) id env still = still id env

  module _ (manager : Option (String → Sim → Sim)) (still : LeavesFrame manager) where
    on_state_change-IsStill : IsStill frame (on_state_change f hour manager)
    unfolding on_state_change
    on_state_change-IsStill id old new env = elim (Bool-cases (same_state new dead)) [
      | inl e ↦ rw e (answer_death-frame manager id (noted_change id old new env) still)
      | inr e ↦ rw e
    ]

    pub perform-frame :
        (a : Action) (env : Sim) → frame (perform f hour manager a env).world ≡ frame env.world
    unfolding perform
    perform-frame (Action.kill_node id) env =
        force_state-still frame (on_state_change f hour manager ∷ []) id dead
          (named_agent id kill env) (on_state_change-IsStill, tt)
    perform-frame (Action.preempt_node id cpu_spike) env = refl
    perform-frame (Action.drain_node id to_pct) env = refl
    perform-frame (Action.isolate a b) env = refl
    perform-frame Action.heal env = refl
    perform-frame (Action.submit_task task) env = submit-frame task env

    perform_due-clock :
        (events : List SimEvent) (env : Sim)
        → clock (perform_due f hour manager events env).world ≡ clock env.world
    unfolding perform_due
    perform_due-clock [] env = refl
    perform_due-clock (event ∷ events) env = elim (Bool-cases (leb event.at env.world.time)) [
      | inl e ↦ rw e (
          perform_due-clock events (perform f hour manager event.action (left events env))
          ∙ ap (λ c. (c.0, c.1)) (perform-frame event.action (left events env)))
      | inr e ↦ rw e
    ]

    heartbeats-frame :
        (agents : List SimAgent) (env : Sim)
        → frame (heartbeats f hour manager agents env).world ≡ frame env.world
    unfolding heartbeats
    heartbeats-frame [] env = refl
    heartbeats-frame (a ∷ agents) env = elim (Bool-cases a.alive) [
      | inl e ↦ rw e (
          heartbeats-frame agents
            (Registry.record_heartbeat (on_state_change f hour manager ∷ []) env.world.time
              a.node_id env).1
          ∙ record_heartbeat-still frame (on_state_change f hour manager ∷ []) env.world.time
              a.node_id env (on_state_change-IsStill, tt))
      | inr e ↦ rw e (heartbeats-frame agents env)
    ]

    -- After the events, a tick leaves the clock and the queue alone.
    pub tick-frame :
        (env : Sim)
        → frame (tick f hour manager env).world
          ≡ frame (perform_due f hour manager env.world.events env).world
    unfolding tick work
    tick-frame env =
        let env₁ = perform_due f hour manager env.world.events env in
        let env₂ = heartbeats f hour manager env₁.world.agents env₁ in
        evaluate_all-still frame (on_state_change f hour manager ∷ []) env₂.world.time env₂
          (on_state_change-IsStill, tt)
        ∙ heartbeats-frame env₁.world.agents env₁

    tick-clock : (env : Sim) → clock (tick f hour manager env).world ≡ clock env.world
    tick-clock env = ap (λ c. (c.0, c.1)) (tick-frame env) ∙ perform_due-clock env.world.events env

    next_tick :
        (env : Sim)
        → clock (advance (tick f hour manager env)).world
          ≡ (env.world.time + env.world.tick_interval, env.world.tick_interval)
    unfolding advance
    next_tick env = ap (λ c. (c.0 + c.1, c.1)) (tick-clock env)

    run_on :
        (fuel until : ℕ) (env : Sim)
        → ltb env.world.time until ≡ true
        → run f hour manager (suc fuel) until env
          ≡ run f hour manager fuel until (advance (tick f hour manager env))
    unfolding run
    run_on fuel until env e = rw (e, run)

    run_over :
        (fuel until : ℕ) (env : Sim)
        → ltb env.world.time until ≡ false
        → run f hour manager (suc fuel) until env ≡ some env
    unfolding run
    run_over fuel until env e = rw (e, run)

    -- `run` ends, given fuel for the ticks until the end and one more look at the clock: the clock has
    -- then reached the end, and has not passed it by a whole tick unless it had before.
    pub run-finishes :
        (n until : ℕ) (env : Sim)
        → until ≤ env.world.time + n * env.world.tick_interval
        → (last : Sim) × (run f hour manager (suc n) until env ≡ some last)
          × (until ≤ last.world.time)
          × ((last ≡ env) ⊎ (last.world.time < until + env.world.tick_interval))
    run-finishes zero until env m =
        (env, run_over zero until env (ground arith), omega arith, inl refl)
    run-finishes (suc n) until env m = elim (Bool-cases (ltb env.world.time until)) [
      | inl e ↦
          (let next = advance (tick f hour manager env) in
            let time_is : next.world.time ≡ env.world.time + env.world.tick_interval =
              ap (λ c. c.0) (next_tick env) in
            let step_is : next.world.tick_interval ≡ env.world.tick_interval =
              ap (λ c. c.1) (next_tick env) in
            let (last, ran, reached, near) =
              run-finishes n until next (rw (time_is, step_is) (omega arith)) in
            (
              last,
              run_on (suc n) until env e ∙ ran,
              reached,
              inr (
                  before_end last next until env.world.time env.world.tick_interval
                    (ltb→lt env.world.time until e) time_is step_is near),
            ))
      | inr e ↦ (env, run_over (suc n) until env e, ground arith, inl refl)
    ]

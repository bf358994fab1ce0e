-- ===== src/Sim/Tick.antt =====
-- `_tick` and `run` of mesh/sim/cluster.py, and the actions of mesh/sim/chaos.py that it executes.
-- `manager` is what the attached job manager does on a death, if one is attached.
pub mod Events
pub mod Ends
pub mod Work
use cluster_mesh.Prelude.{
  ℕ, zero, suc, ◌+◌, min, String, Bool, true, false, ◌&&◌, ◌||◌, Option, none, some, List, [], ◌∷◌,
  map, ◌==◌, leb, ltb, if◌then◌else◌,
}
use cluster_mesh.Prelude.Dict.{Dict, put}
use cluster_mesh.Models.{NodeState, dead, TaskSpec, is_running, completed}
use cluster_mesh.Health.Registry
use cluster_mesh.Health.Registry.{Env}
use cluster_mesh.Scheduler.Scoring.{Float}
use cluster_mesh.Recovery.Checkpoints.{Checkpoints, save}
use cluster_mesh.Sim.Agent.{SimAgent, kill, preempt, drain_battery}
use cluster_mesh.Sim.Cluster.{
  SimCluster, Sim, SimEvent, Action, set_world, change_agent, on_state_change, submit, kill_node,
  preempt_node, drain_node, isolate, heal, submit_task,
}

-- `for agent in self.cluster.agents: …`
abbrev each_agent : (SimAgent → SimAgent) → Sim → Sim
each_agent change env =
    let w = env.world in set_world (record w { agents = map change w.agents }) env

abbrev pub named_agent : String → (SimAgent → SimAgent) → Sim → Sim
named_agent id change env =
    let w = env.world in set_world (record w { agents = change_agent id change w.agents }) env

-- The queue after an event was taken.
abbrev pub left : List SimEvent → Sim → Sim
left events env = set_world (record (env.world) { events = events }) env

-- `if agent.location in (location_a, location_b): agent._partitioned = True`
abbrev cut : String → String → SimAgent → SimAgent
cut a b agent =
    if agent.location == a || agent.location == b
    then record agent { partitioned = true }
    else agent

-- One round of the loop that advances the running tasks.
unfoldable pub advance_task : ℕ → ℕ → TaskSpec → Checkpoints → TaskSpec × Checkpoints
unfolding save
advance_task tick now t cps =
    let t' : TaskSpec = record t { progress = min t.total_work (t.progress + tick) } in
    if is_running t.state
    then (t', if t.checkpoint then (save t' none now cps).1 else cps)
    else (t, cps)

unfoldable pub advance_tasks : ℕ → ℕ → Dict TaskSpec → Checkpoints → Dict TaskSpec × Checkpoints
unfolding advance_task
advance_tasks tick now [] cps = ([], cps)
advance_tasks tick now ((id, t) ∷ tasks) cps =
    let (t', cps') = advance_task tick now t cps in
    let (tasks', cps'') = advance_tasks tick now tasks cps' in ((id, t') ∷ tasks', cps'')

-- One round of the loop that completes tasks, and the loop.
unfoldable pub complete_task : TaskSpec → TaskSpec
complete_task t =
    if is_running t.state && leb t.total_work t.progress then record t { state = completed } else t

unfoldable pub complete_tasks : Dict TaskSpec → Dict TaskSpec
unfolding complete_task
complete_tasks [] = []
complete_tasks ((id, t) ∷ tasks) = (id, complete_task t) ∷ complete_tasks tasks

-- `clock.advance(tick_interval)`
unfoldable pub advance : Sim → Sim
advance env = let w = env.world in set_world (record w { time = w.time + w.tick_interval }) env

module _ (f : Float) (hour : ℕ) (manager : Option (String → Sim → Sim)) where
  unfoldable pub perform : Action → Sim → Sim
  unfolding on_state_change submit kill preempt drain_battery
  perform (kill_node id) env =
      Registry.force_state (on_state_change f hour manager ∷ []) id dead (named_agent id kill env)
  perform (preempt_node id cpu_spike) env = named_agent id (preempt cpu_spike) env
  perform (drain_node id to_pct) env = named_agent id (drain_battery to_pct) env
  perform (isolate a b) env = each_agent (cut a b) env
  perform heal env = each_agent (λ agent. record agent { partitioned = false }) env
  perform (submit_task task) env = (submit f hour task env).1

  -- The first loop of `_tick`: an event leaves the queue before it is executed. The argument is the
  -- queue, which no action changes.
  unfoldable pub perform_due : List SimEvent → Sim → Sim
  unfolding perform
  perform_due [] env = env
  perform_due (event ∷ events) env =
      if leb event.at env.world.time
      then perform_due events (perform event.action (left events env))
      else env

  -- The second loop: the machines that are alive send their heartbeats.
  unfoldable pub heartbeats : List SimAgent → Sim → Sim
  unfolding on_state_change
  heartbeats [] env = env
  heartbeats (a ∷ agents) env =
      let heard =
        (Registry.record_heartbeat (on_state_change f hour manager ∷ []) env.world.time a.node_id
          env).1 in
      heartbeats agents (if a.alive then heard else env)

  -- The last two loops.
  unfoldable pub work : Sim → Sim
  unfolding advance_tasks complete_tasks
  work env =
      let w = env.world in
      let (tasks, cps) = advance_tasks w.tick_interval w.time w.tasks w.checkpoints in
      set_world (record w { tasks = complete_tasks tasks; checkpoints = cps }) env

  unfoldable pub tick : Sim → Sim
  unfolding perform_due heartbeats work on_state_change
  tick env =
      let env₁ = perform_due env.world.events env in
      let env₂ = heartbeats env₁.world.agents env₁ in
      let (_, env₃) =
        Registry.evaluate_all (on_state_change f hour manager ∷ []) env₂.world.time env₂ in
      work env₃

  -- `run`; `none` where the fuel ends before the loop does.
  unfoldable pub run : ℕ → ℕ → Sim → Option Sim
  unfolding tick advance
  run zero until env = none
  run (suc fuel) until env = elim (ltb env.world.time until) [
    | true ↦ run fuel until (advance (tick env))
    | false ↦ some env
  ]

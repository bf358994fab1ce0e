-- ===== src/Sim/Cluster.antt =====
-- `SimCluster` of mesh/sim/cluster.py: its state, submission, and what it does when a node dies. The
-- tracker of its health registry and the rest of its state are the two parts of an `Env`. `hour` is
-- the hour of the day that the placement engine asks for.
use cluster_mesh.Prelude.{
  ℕ, String, true, false, Option, none, some, List, [], ◌∷◌, ◌++◌, ◌==◌, leb, map, if◌then◌else◌,
}
use cluster_mesh.Prelude.Dict.{Dict, put, values}
use cluster_mesh.Prelude.Sort.{sort_by}
use cluster_mesh.Models.{Node, NodeState, dead, same_state, TaskSpec, running, pending}
use cluster_mesh.Health.Registry
use cluster_mesh.Health.Registry.{Env, Callback}
use cluster_mesh.Scheduler.Scoring.{Float}
use cluster_mesh.Scheduler.Placement.{PlacementEngine, Placement, place}
use cluster_mesh.Recovery.Checkpoints.{Checkpoints}
use cluster_mesh.Recovery.Stealing.{find_orphaned_tasks, steal}
use cluster_mesh.Sim.Agent.{SimAgent, to_node, kill}

-- What the scheduled callables do: those of `ChaosController`, and a submission.
pub data Action : Type 0 where
  kill_node : (node_id : String) → Action
  preempt_node : (node_id : String) (cpu_spike : ℕ) → Action
  drain_node : (node_id : String) (to_pct : ℕ) → Action
  isolate : (location_a location_b : String) → Action
  heal : Action
  submit_task : TaskSpec → Action

pub record SimEvent : Type 0 where
  pub at : ℕ
  pub action : Action

-- `stealer_engine` and `stealer_checkpoints` are those of the work stealer.
pub record SimCluster : Type 0 where
  pub agents : List SimAgent
  pub time : ℕ
  pub tick_interval : ℕ
  pub placement_engine : PlacementEngine
  pub stealer_engine : PlacementEngine
  pub checkpoints : Checkpoints
  pub stealer_checkpoints : Checkpoints
  pub tasks : Dict TaskSpec
  pub events : List SimEvent
  pub state_changes : List (ℕ × String × NodeState × NodeState)

abbrev pub Sim : Type 0
Sim = Env SimCluster

abbrev pub set_world : SimCluster → Sim → Sim
set_world w env = record env { world = w }

-- `for agent in self.agents: if agent.node_id == node_id: …`
abbrev pub change_agent : String → (SimAgent → SimAgent) → List SimAgent → List SimAgent
change_agent id change agents = map (λ a. if a.node_id == id then change a else a) agents

-- The comprehension of `_live_nodes`: each state is asked of the registry, which stores it.
unfoldable pub nodes_of : List SimAgent → Sim → List Node × Sim
unfolding to_node
nodes_of [] env = ([], env)
nodes_of (a ∷ agents) env = elim a.alive [
  | true ↦
      (let (state, env') = Registry.get_state env.world.time a.node_id env in
        let (nodes, env'') = nodes_of agents env' in (to_node state a ∷ nodes, env''))
  | false ↦ nodes_of agents env
]

unfoldable pub live_nodes : Sim → List Node × Sim
unfolding nodes_of
live_nodes env = nodes_of env.world.agents env

-- The stolen tasks are the objects of `_tasks`.
unfoldable pub put_tasks : List (TaskSpec × Option String) → Dict TaskSpec → Dict TaskSpec
put_tasks [] tasks = tasks
put_tasks ((t, placed_on) ∷ stolen) tasks = put_tasks stolen (put t.task_id t tasks)

-- `agent._assigned_tasks.append(task_id)`
abbrev assign : String → SimAgent → SimAgent
assign task_id a = record a { assigned_tasks = a.assigned_tasks ++ task_id ∷ [] }

-- The rest of `submit`, on the placement.
unfoldable pub assign_placed :
    {f : Float} → TaskSpec → Option (Placement f) → Sim → Option String × Sim
assign_placed task none env =
    let w = env.world in
    (
      none,
      set_world (record w { tasks = put task.task_id (record task { state = pending }) w.tasks })
          env,
    )
assign_placed task (some p) env =
    let w = env.world in
    let placed : TaskSpec = record task { assigned_node = some p.node_id; state = running } in
    (
      some p.node_id,
      set_world
          (record w {
            tasks = put task.task_id placed w.tasks;
            agents = change_agent p.node_id (assign task.task_id) w.agents;
          })
          env,
    )

abbrev pub noted_change : String → NodeState → NodeState → Sim → Sim
noted_change id old new env =
    let w = env.world in
    set_world (record w { state_changes = w.state_changes ++ (w.time, id, old, new) ∷ [] }) env

abbrev pub without_agent : String → Sim → Sim
without_agent dead_node_id env =
    let w = env.world in
    set_world (record w { agents = change_agent dead_node_id kill w.agents }) env

abbrev pub filed : TaskSpec → Sim → Sim
filed task env =
    let w = env.world in set_world (record w { tasks = put task.task_id task w.tasks }) env

module _ (f : Float) (hour : ℕ) where
  -- `if orphaned: …`
  unfoldable pub rescue : List TaskSpec → Sim → Sim
  unfolding live_nodes steal put_tasks
  rescue [] env = env
  rescue (t ∷ orphaned) env =
      let (nodes, env') = live_nodes env in
      let w = env'.world in
      let stolen = steal f w.stealer_engine w.stealer_checkpoints hour (t ∷ orphaned) nodes in
      set_world (record w { tasks = put_tasks stolen w.tasks }) env'

  -- `_handle_node_death` of a cluster without a job manager.
  unfoldable pub handle_node_death : String → Sim → Sim
  unfolding find_orphaned_tasks rescue kill
  handle_node_death dead_node_id env =
      rescue (find_orphaned_tasks (values env.world.tasks) (dead_node_id ∷ []))
        (without_agent dead_node_id env)

  -- A job manager that is attached answers the deaths in the cluster's place.
  unfoldable pub answer_death : Option (String → Sim → Sim) → String → Sim → Sim
  unfolding handle_node_death
  answer_death none id env = handle_node_death id env
  answer_death (some handle) id env = handle id env

  -- `_on_state_change`, the registry's one callback.
  unfoldable pub on_state_change : Option (String → Sim → Sim) → Callback SimCluster
  unfolding answer_death
  on_state_change manager id old new env =
      let changed = noted_change id old new env in
      if same_state new dead then answer_death manager id changed else changed

  unfoldable pub submit : TaskSpec → Sim → Option String × Sim
  unfolding live_nodes assign_placed
  submit task env =
      let w = env.world in
      let (nodes, env') = live_nodes (filed task env) in
      assign_placed task (place f w.placement_engine task nodes hour) env'

-- `self._events.append(…); self._events.sort(key=lambda e: e.at)`
unfoldable pub schedule_event : ℕ → Action → SimCluster → SimCluster
schedule_event at action w = record w {
  events = sort_by (λ x y. leb x.at y.at) (w.events ++ record { at = at; action = action } ∷ []);
}

-- ===== src/Sim/Chaos.antt =====
-- `ChaosController` of mesh/sim/chaos.py: failures for a later time, as events of the cluster.
use cluster_mesh.Prelude.{ℕ, ◌+◌, String}
use cluster_mesh.Sim.Cluster.{SimCluster, Action, schedule_event}

unfoldable pub kill_node : String → ℕ → SimCluster → SimCluster
unfolding schedule_event
kill_node node_id at w = schedule_event at (Action.kill_node node_id) w

unfoldable pub preempt : String → ℕ → ℕ → SimCluster → SimCluster
unfolding schedule_event
preempt node_id at cpu_spike w = schedule_event at (Action.preempt_node node_id cpu_spike) w

unfoldable pub battery_drain : String → ℕ → ℕ → SimCluster → SimCluster
unfolding schedule_event
battery_drain node_id at to_pct w = schedule_event at (Action.drain_node node_id to_pct) w

unfoldable pub partition : String → String → ℕ → ℕ → SimCluster → SimCluster
unfolding schedule_event
partition location_a location_b at duration w =
    schedule_event (at + duration) Action.heal
      (schedule_event at (Action.isolate location_a location_b) w)

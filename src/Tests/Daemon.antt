-- ===== src/Tests/Daemon.antt =====
-- An agent that registers and makes three passes.
use cluster_mesh.Prelude.{ℕ, ◌≡◌, ◌≤◌, ◌+◌, refl, true, false, some, [], ◌∷◌, arith}
use cluster_mesh.Models.{healthy}
use cluster_mesh.Health.Tracker
use cluster_mesh.Agent.Client.{resource_msg}
use cluster_mesh.Agent.Daemon.{AgentConfig, LoopState, Pass, loop}
use cluster_mesh.Agent.Daemon.Punctual.{GoesOn}
use cluster_mesh.Driver.Cluster.{Cluster}
use cluster_mesh.Driver.Servicer.{RegisterRequest, register_node_handler}
use cluster_mesh.Driver.Servicer.Alive.{stub, agent_stays_healthy}
use cluster_mesh.Tests.Data.{node}

abbrev request : RegisterRequest
request = record {
  node_id = "a";
  hostname = "a";
  os_name = "Linux";
  location = "lab";
  preemptible = true;
  resources = resource_msg "a" (node "a" 4_000).resources "";
  libraries = [];
}

abbrev empty_cluster : Cluster
empty_cluster = record {
  tracker = record {
    interval_seconds = 2_000;
    suspected_threshold = 3;
    dead_threshold = 5;
    last_heartbeat = [];
    states = [];
    explicit_dead = [];
  };
  world = record { nodes = []; remote_agents = []; tasks = []; state_changes = [] };
}

abbrev config : AgentConfig
config = record { preemptible = true; heartbeat_interval = 2_000; resource_interval = 1_000 }

abbrev start : LoopState
start = record {
  last_heartbeat = 0;
  last_resource = 0;
  preemption = record {
    cpu_threshold = 850;
    consecutive_triggers = 3;
    high_cpu_streak = 0;
    last_triggered = false;
  };
}

abbrev pass_at : ℕ → Pass Cluster
pass_at now = record {
  now = now;
  snapshot = some (record { resources = (node "a" 4_000).resources; host_metrics_json = "" });
  meanwhile = λ env. env;
}

fits : config.heartbeat_interval + 4_000 ≤ Tracker.time_to_suspected empty_cluster.tracker
unfolding Tracker.time_to_suspected
fits = omega arith

agent_stays_healthy_example :
    GoesOn
      (λ st env. (t : ℕ) → t ≤ 63_000 + 4_000 → (Tracker.evaluate t "a" env.tracker).0 ≡ healthy)
      (loop
        (stub (λ id env. env) (λ id env. env) "a")
        config
        (pass_at 60_000 ∷ pass_at 61_000 ∷ pass_at 63_000 ∷ [])
        start
        (register_node_handler 59_000 request empty_cluster))
agent_stays_healthy_example =
    agent_stays_healthy (λ id env. env) (λ id env. env) request 59_000 empty_cluster config start
      (pass_at 60_000) (pass_at 61_000 ∷ pass_at 63_000 ∷ []) 4_000 (λ env. refl)
      (record { interval = omega arith; suspected_first = omega arith; ordered = omega arith })
      (omega arith) fits refl
      (((_, refl), λ env. refl), (((_, refl), λ env. refl), (((_, refl), λ env. refl), tt)))

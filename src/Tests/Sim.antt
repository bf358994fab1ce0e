-- ===== src/Tests/Sim.antt =====
-- The simulation at concrete inputs: one machine, one task of two ticks and a half.
use cluster_mesh.Prelude.{
  ◌+◌, ◌≤◌, ◌<◌, ◌≡◌, refl, ◌⊎◌, none, some, List, [], ◌∷◌, select, arith, true, false,
}
use cluster_mesh.Prelude.Dict.{get}
use cluster_mesh.Models.{TaskState, cpu}
use cluster_mesh.Sim.Agent.{SimAgent}
use cluster_mesh.Sim.Cluster.{Sim, SimCluster, SimEvent, Action}
use cluster_mesh.Sim.Tick.{tick, run}
use cluster_mesh.Sim.Tick.Ends.{run-finishes}
use cluster_mesh.Sim.Tick.Events.{is_later, tick-events}
use cluster_mesh.Sim.Tick.Work.{work_times, done_after, work_times-done}
use cluster_mesh.Tests.Data.{millionths, engine, task}

abbrev machine : SimAgent
machine = record {
  node_id = "a";
  cpu_cores = 8_000;
  ram_gb = 16_000;
  gpu_count = 0;
  vram_gb = 0;
  cuda_version = none;
  network_gbps = 1_000;
  battery_pct = none;
  preemptible = false;
  reliability = 900;
  latency_score = 900;
  pool = cpu;
  location = "lab";
  hostname = "a";
  alive = true;
  user_active = false;
  cpu_utilization = 0;
  assigned_tasks = [];
  partitioned = false;
}

abbrev events : List SimEvent
events =
    record { at = 0; action = Action.preempt_node "a" 950 }
    ∷ record { at = 5_000; action = Action.heal }
    ∷ []

abbrev world : SimCluster
world = record {
  agents = machine ∷ [];
  time = 1_000;
  tick_interval = 400;
  placement_engine = engine;
  stealer_engine = engine;
  checkpoints = [];
  stealer_checkpoints = [];
  tasks = ("t", task "t" 1_000 TaskState.running (some "a")) ∷ [];
  events = events;
  state_changes = [];
}

abbrev sim : Sim
sim = record {
  tracker = record {
    interval_seconds = 2_000;
    suspected_threshold = 3;
    dead_threshold = 5;
    last_heartbeat = ("a", 0) ∷ [];
    states = [];
    explicit_dead = [];
  };
  world = world;
}

run-finishes_example :
    (last : Sim) × (run millionths 12 none 6 3_000 sim ≡ some last)
    × (3_000 ≤ last.world.time)
    × ((last ≡ sim) ⊎ (last.world.time < 3_000 + sim.world.tick_interval))
run-finishes_example = run-finishes millionths 12 none tt 5 3_000 sim (omega arith)

tick-events_example :
    (tick millionths 12 none sim).world.events ≡ select (is_later sim.world.time) sim.world.events
tick-events_example = tick-events millionths 12 none tt sim ((refl, tt), (tt, tt))

work_times-done_example :
    get "t" (work_times millionths 12 none 3 sim).world.tasks
    ≡ some (done_after 1_200 (task "t" 1_000 TaskState.running (some "a")))
unfolding get
work_times-done_example =
    work_times-done millionths 12 none 3 "t" (task "t" 1_000 TaskState.running (some "a")) sim refl
      refl (omega arith)

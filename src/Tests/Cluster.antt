-- ===== src/Tests/Cluster.antt =====
-- The driver's cluster, the preemption detector and the mesh of sites.
use cluster_mesh.Prelude.{◌≡◌, refl, [], ◌∷◌, some, none, false, select}
use cluster_mesh.Prelude.Dict.{get, member}
use cluster_mesh.Prelude.Sort.{sort_by, insert_by}
use cluster_mesh.Prelude.Text.{text_leb}
use cluster_mesh.Models.{TaskSpec, healthy, pending, running, meets_requirements}
use cluster_mesh.Health.Tracker
use cluster_mesh.Health.Tracker.{HeartbeatTracker}
use cluster_mesh.Health.Registry
use cluster_mesh.Scheduler.Scoring.{
  score, cpu_score, mem_score, gpu_score, network_score, cpu_score_component,
  memory_score_component, gpu_score_component,
}
use cluster_mesh.Scheduler.Pools.{eligible_nodes}
use cluster_mesh.Scheduler.Placement.{place, candidates, choose, ranks_before}
use cluster_mesh.Driver.Cluster.{Cluster, live_nodes, nodes_from, submit, assign_placed}
use cluster_mesh.Driver.Live.{Chosen, submit_lands}
use cluster_mesh.Agent.Preemption.{PreemptionDetector}
use cluster_mesh.Tests.Data.{millionths, millionths-IsOrder, engine, node, task}

-- "a" was last heard of 12 s ago, "b" just now.
abbrev cluster : Cluster
cluster = record {
  tracker = record {
    interval_seconds = 2_000;
    suspected_threshold = 3;
    dead_threshold = 5;
    last_heartbeat = ("a", 1_000) ∷ ("b", 12_500) ∷ [];
    states = ("a", healthy) ∷ ("b", healthy) ∷ [];
    explicit_dead = [];
  };
  world = record {
    nodes = ("a", node "a" 4_000) ∷ ("b", node "b" 8_000) ∷ [];
    remote_agents = [];
    tasks = [];
    state_changes = [];
  };
}

abbrev job_task : TaskSpec
job_task = task "t" 2_000 pending none

submitted : (submit millionths engine 13_000 12 job_task cluster).0 ≡ some "b"
unfolding submit live_nodes nodes_from assign_placed place candidates choose ranks_before score
    eligible_nodes meets_requirements select sort_by insert_by cpu_score mem_score gpu_score
    network_score cpu_score_component memory_score_component gpu_score_component text_leb get member
    Tracker.evaluate Tracker.classify Tracker.missed_count Registry.get_state
submitted = refl

submit_lands_example :
    Chosen millionths millionths-IsOrder engine 13_000 12 job_task cluster "b"
    × (get "t" (submit millionths engine 13_000 12 job_task cluster).1.world.tasks
        ≡ some (record job_task { assigned_node = some "b"; state = running }))
submit_lands_example =
    submit_lands millionths millionths-IsOrder engine 13_000 12 job_task cluster "b" submitted

abbrev detector : PreemptionDetector
detector = record {
  cpu_threshold = 850;
  consecutive_triggers = 2;
  high_cpu_streak = 7;
  last_triggered = false;
}

-- ===== src/Tests/Scheduling.antt =====
-- Placement of one task and of several, and rebalancing.
use cluster_mesh.Prelude.{
  ℕ, ◌+◌, ◌*◌, ◌/◌, ◌-◌, ◌≤◌, String, ◌≡◌, refl, arith, List, [], ◌∷◌, some, none, false, leb, ltb,
  select, sum_of, length,
}
use cluster_mesh.Prelude.Sort.{sort_by, insert_by}
use cluster_mesh.Models.{Node, TaskSpec, pending, running, meets_requirements}
use cluster_mesh.Prelude.Text.{text_leb}
use cluster_mesh.Scheduler.Scoring.{
  score, cpu_score, mem_score, gpu_score, network_score, cpu_score_component,
  memory_score_component, gpu_score_component,
}
use cluster_mesh.Scheduler.Pools.{eligible_nodes}
use cluster_mesh.Scheduler.Placement.{Placement, place, place_all, candidates, choose, ranks_before}
use cluster_mesh.Scheduler.Placement.Best.{IsBest, place-IsBest}
use cluster_mesh.Scheduler.Placement.Capacity.{load, cores_of, ram_of, place_all-capacity}
use cluster_mesh.Scheduler.Rebalancing.{
  Loads, RebalanceAction, analyze, utilizations, actions_from, pick,
}
use cluster_mesh.Tests.Data.{
  millionths, millionths-IsOrder, engine, node, nodes, texts_differ, requirements, task,
}

-- The scores are equal, so the node ids decide.
abbrev chosen : Placement millionths
chosen = record { task_id = "t"; node_id = "a"; score = 1_000_000 }

place-chosen : place millionths engine (task "t" 2_000 pending none) nodes 12 ≡ some chosen
unfolding place candidates choose ranks_before score eligible_nodes meets_requirements select
    sort_by insert_by cpu_score mem_score gpu_score network_score cpu_score_component
    memory_score_component gpu_score_component text_leb
place-chosen = refl

place-IsBest_example :
    (best : Node) × IsBest millionths millionths-IsOrder engine
      (task "t" 2_000 pending none)
      nodes
      12
      best
    × ((chosen.node_id ≡ best.node_id)
        × (chosen.task_id ≡ "t")
        × (chosen.score ≡ score millionths engine.scorer best (requirements 2_000))
        × (leb chosen.score 0 ≡ false))
place-IsBest_example =
    place-IsBest millionths millionths-IsOrder engine (task "t" 2_000 pending none) nodes 12 chosen
      place-chosen

abbrev tasks : List TaskSpec
tasks = task "t" 3_000 pending none ∷ task "u" 3_000 pending none ∷ []

differ : ◌≡◌ {A = String} "b" "a" → ⊥
differ same = texts_differ "b" "a" refl same

place_all-capacity_example :
    (load millionths cores_of tasks "a" (place_all millionths engine tasks nodes 12) ≤ 4_000)
    × (load millionths ram_of tasks "a" (place_all millionths engine tasks nodes 12) ≤ 16_000)
place_all-capacity_example =
    place_all-capacity millionths millionths-IsOrder engine nodes 12 "a" 4_000 16_000
      ((λ same. (omega arith, omega arith)), ((λ same. absurd (differ same)), tt)) tasks
      (refl, (refl, tt))

-- One of two nodes is busy; the loads are in millionths.
abbrev loads : Loads
loads = record {
  F = ℕ;
  load = λ total free. (total - free) * 1_000_000 / total;
  mean = λ l. sum_of (λ x. x) l / length l;
  exceeds = λ u v. ltb (v + 300_000) u;
}

abbrev busy : Node
busy = record (node "a" 4_000) {
  resources = record ((node "a" 4_000).resources) { cpu_cores_free = 0 };
}

abbrev cluster : List Node
cluster = busy ∷ node "b" 8_000 ∷ []

abbrev placed : List TaskSpec
placed = task "t" 3_000 running (some "a") ∷ []

abbrev move : RebalanceAction
move = record { task_id = "t"; from_node = "a"; to_node = "b" }

analyze_moves : analyze loads cluster placed ≡ move ∷ []
unfolding analyze utilizations select sum_of actions_from pick
analyze_moves = refl

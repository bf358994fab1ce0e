-- ===== src/Recovery/Stealing.antt =====
-- `WorkStealer` of mesh/recovery/work_stealing.py.
use cluster_mesh.Prelude.{
  ℕ, String, Bool, false, not, ◌&&◌, ◌||◌, Option, none, some, List, [], ◌∷◌, select, length, eqb,
}
use cluster_mesh.Prelude.Dict.{member, add}
use cluster_mesh.Models.{Node, TaskSpec, is_held, running, pending, migrating, same_state, healthy}
use cluster_mesh.Scheduler.Scoring.{Float}
use cluster_mesh.Scheduler.Placement.{PlacementEngine, place}
use cluster_mesh.Recovery.Checkpoints.{Checkpoints, restore}

-- `assigned_node in dead_node_ids`
abbrev assigned_among : List String → TaskSpec → Bool
assigned_among ids t = elim t.assigned_node [ none ↦ false | some id ↦ member id ids ]

unfoldable pub find_orphaned_tasks : List TaskSpec → List String → List TaskSpec
find_orphaned_tasks tasks dead_node_ids =
    select (λ t. assigned_among dead_node_ids t && is_held t.state) tasks

module _ (f : Float) (e : PlacementEngine) (cps : Checkpoints) (hour : ℕ) where
  abbrev pub free_nodes : List Node → List String → List Node
  free_nodes healthy_nodes used =
      select (λ n. not (member n.node_id used) || eqb (length healthy_nodes) 1) healthy_nodes

  -- A task as it is when `place` is asked.
  abbrev pub migrated : TaskSpec → TaskSpec
  migrated t = record (restore t cps) { state = migrating }

  -- The loop of `steal`.
  unfoldable pub steal_from :
      List Node → List String → List TaskSpec → List (TaskSpec × Option String)
  steal_from healthy_nodes used [] = []
  steal_from healthy_nodes used (t ∷ ts) =
      elim (place f e (migrated t) (free_nodes healthy_nodes used) hour) [
        | none ↦
            (record (migrated t) { state = pending; assigned_node = none }, none)
            ∷ steal_from healthy_nodes used ts
        | some p ↦
            (
              record (migrated t) { assigned_node = some p.node_id; state = running },
              some p.node_id,
            )
            ∷ steal_from healthy_nodes (add p.node_id used) ts
      ]

  unfoldable pub steal : List TaskSpec → List Node → List (TaskSpec × Option String)
  unfolding steal_from
  steal orphaned_tasks available_nodes =
      steal_from (select (λ n. same_state n.state healthy) available_nodes) [] orphaned_tasks

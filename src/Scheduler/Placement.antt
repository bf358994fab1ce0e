-- ===== src/Scheduler/Placement.antt =====
-- mesh/scheduler/placement.py. The proofs are in the modules below.
pub mod Best
pub mod Capacity
use cluster_mesh.Prelude.{
  ℕ, ◌+◌, ◌-◌, String, Bool, true, false, Option, none, some, List, [], ◌∷◌, map, select,
  if◌then◌else◌,
}
use cluster_mesh.Prelude.Dict.{Dict, get, get_or, put}
use cluster_mesh.Prelude.Sort.{sort_by}
use cluster_mesh.Prelude.Text.{text_leb}
use cluster_mesh.Models.{Node, NodeResources, ResourceRequirements, TaskSpec, meets_requirements}
use cluster_mesh.Scheduler.Scoring.{Float, ScoringWeights, score}
use cluster_mesh.Scheduler.Pools.{PoolRouter, eligible_nodes}

pub record PlacementEngine : Type 0 where
  pub scorer : ScoringWeights
  pub pool_router : PoolRouter

-- What `place_all` remembers of a node: the cores and the memory that it gave away.
abbrev pub Usage : Type 0
Usage = Dict (ℕ × ℕ)

abbrev pub used_on : String → Usage → ℕ × ℕ
used_on id usage = get_or (0, 0) id usage

-- One round of the loop of `_apply_usage`.
unfoldable pub apply_usage_to : Usage → Node → Node
apply_usage_to usage n =
    let (cpu_used, ram_used) = used_on n.node_id usage in
    let r = n.resources in
    record n {
      resources = record r {
        cpu_cores_free = r.cpu_cores_free - cpu_used;
        ram_gb_free = r.ram_gb_free - ram_used;
      };
    }

unfoldable pub apply_usage : List Node → Usage → List Node
unfolding apply_usage_to
apply_usage nodes usage = map (apply_usage_to usage) nodes

module _ (f : Float) where
  open f use {F, zero_f, le}

  pub record Placement : Type 0 where
    pub task_id : String
    pub node_id : String
    pub score : F

  abbrev pub Scored : Type 0
  Scored = Node × F

  -- The order of the keys `(-score, node_id)`.
  unfoldable pub ranks_before : Scored → Scored → Bool
  ranks_before a b =
      if le b.1 a.1 then (if le a.1 b.1 then text_leb a.0.node_id b.0.node_id else true) else false

  unfoldable pub candidates : PlacementEngine → TaskSpec → List Node → ℕ → List Node
  candidates e task nodes hour =
      select (λ n. meets_requirements n task.requirements)
        (eligible_nodes e.pool_router nodes task.pool hour)

  abbrev pub scored : PlacementEngine → TaskSpec → Node → Scored
  scored e task n = (n, score f e.scorer n task.requirements)

  -- `scored[0]`, and what is returned of it.
  unfoldable pub choose : TaskSpec → List Scored → Option Placement
  choose task [] = none
  choose task ((best_node, best_score) ∷ others) =
      if le best_score zero_f
      then none
      else some (record { task_id = task.task_id; node_id = best_node.node_id; score = best_score })

  unfoldable pub place : PlacementEngine → TaskSpec → List Node → ℕ → Option Placement
  unfolding candidates choose
  place e task nodes hour =
      choose task (sort_by ranks_before (map (scored e task) (candidates e task nodes hour)))

  -- The entry that a placed task adds to.
  unfoldable pub add_usage : TaskSpec → String → Usage → Usage
  add_usage task id usage =
      let (cpu_used, ram_used) = used_on id usage in
      put id (cpu_used + task.requirements.cpu_cores, ram_used + task.requirements.ram_gb) usage

  -- The loop of `place_all`, from the usage so far.
  unfoldable pub place_from :
      PlacementEngine → List Node → ℕ → Usage → List TaskSpec → List Placement
  unfolding add_usage
  place_from e nodes hour usage [] = []
  place_from e nodes hour usage (task ∷ tasks) =
      elim (place e task (apply_usage nodes usage) hour) [
        | none ↦ place_from e nodes hour usage tasks
        | some p ↦ p ∷ place_from e nodes hour (add_usage task p.node_id usage) tasks
      ]

  unfoldable pub place_all : PlacementEngine → List TaskSpec → List Node → ℕ → List Placement
  unfolding place_from
  place_all e tasks nodes hour = place_from e nodes hour [] tasks

-- ===== src/Scheduler/Scoring.antt =====
-- mesh/scheduler/scoring.py and the score components of mesh/models/node.py. Scores are Python
-- floats: a type with the operations that the code uses, given as a parameter.
use cluster_mesh.Prelude.{ℕ, ◌+◌, Bool, Option, none, some, leb, ltb, eqb, max, if◌then◌else◌}
use cluster_mesh.Models.{Node, NodeResources, ResourceRequirements}

-- `ratio a b` is the float nearest to a / b; `round6` is `round(x, 6)`.
pub record Float : Type 1 where
  pub F : Type 0
  pub zero_f : F
  pub one_f : F
  pub ratio : ℕ → ℕ → F
  pub add : F → F → F
  pub mul : F → F → F
  pub round6 : F → F
  pub le : F → F → Bool

-- In thousandths.
pub record ScoringWeights : Type 0 where
  pub cpu : ℕ
  pub memory : ℕ
  pub gpu : ℕ
  pub reliability : ℕ
  pub network : ℕ

abbrev pub default_weights : ScoringWeights
default_weights = record { cpu = 350; memory = 250; gpu = 150; reliability = 150; network = 100 }

-- `__post_init__`: `none` where it raises ValueError.
pub checked_weights : ScoringWeights → Option ScoringWeights
checked_weights w =
    let total = w.cpu + w.memory + w.gpu + w.reliability + w.network in
    if ltb 1001 total then none else if ltb total 999 then none else some w

module _ (f : Float) where
  open f use {F, zero_f, one_f, ratio, add, mul, round6, le}

  -- `min(1.0, x)`
  abbrev pub capped : F → F
  capped x = if le one_f x then one_f else x

  unfoldable pub cpu_score_component : NodeResources → F
  cpu_score_component r =
      if eqb r.cpu_cores_total 0 then zero_f else capped (ratio r.cpu_cores_free r.cpu_cores_total)

  unfoldable pub memory_score_component : NodeResources → F
  memory_score_component r =
      if eqb r.ram_gb_total 0 then zero_f else capped (ratio r.ram_gb_free r.ram_gb_total)

  unfoldable pub gpu_score_component : NodeResources → F
  gpu_score_component r =
      if eqb r.gpu_count 0 then zero_f else if ltb 0 r.vram_gb_free then one_f else zero_f

  -- The local variables of `score`, one function each.
  unfoldable pub cpu_score : Node → ResourceRequirements → F
  unfolding cpu_score_component
  cpu_score n req =
      if leb req.cpu_cores n.resources.cpu_cores_free
      then cpu_score_component n.resources
      else zero_f

  unfoldable pub mem_score : Node → ResourceRequirements → F
  unfolding memory_score_component
  mem_score n req =
      if leb req.ram_gb n.resources.ram_gb_free then memory_score_component n.resources else zero_f

  unfoldable pub gpu_score : Node → ResourceRequirements → F
  unfolding gpu_score_component
  gpu_score n req =
      if ltb 0 req.gpu_count
      then (if leb req.gpu_count n.resources.gpu_count
          then gpu_score_component n.resources
          else zero_f)
      else one_f

  unfoldable pub network_score : Node → ResourceRequirements → F
  network_score n req = capped (ratio n.resources.network_gbps (max req.network_gbps 1000))

  abbrev weighted : ℕ → F → F
  weighted w x = mul (ratio w 1000) x

  -- The sum is taken from the left, as Python does.
  unfoldable pub score : ScoringWeights → Node → ResourceRequirements → F
  score w n req = round6 (
      add
        (add
          (add (add (weighted w.cpu (cpu_score n req)) (weighted w.memory (mem_score n req)))
            (weighted w.gpu (gpu_score n req)))
          (weighted w.reliability (ratio n.reliability_score 1000)))
        (weighted w.network (network_score n req)))

-- ===== src/Models/Nodes.antt =====
-- mesh/models/node.py. Quantities are natural numbers of thousandths (cores, GB, Gbps, percent).
use cluster_mesh.Prelude.{ℕ, String, Bool, false, ◌&&◌, Option, some, ltb, if◌then◌else◌}
use cluster_mesh.Prelude.Dict.{Dict}
use cluster_mesh.Models.Enums.{NodeState, ResourcePool, same_state, healthy}
use cluster_mesh.Models.Tasks.{ResourceRequirements}

pub record NodeResources : Type 0 where
  pub cpu_cores_total : ℕ
  pub cpu_cores_free : ℕ
  pub ram_gb_total : ℕ
  pub ram_gb_free : ℕ
  pub gpu_count : ℕ
  pub vram_gb_free : ℕ
  pub cuda_version : Option ℕ
  pub network_gbps : ℕ
  pub battery_pct : Option ℕ
  pub cpu_utilization : ℕ
  pub user_active : Bool

pub record Node : Type 0 where
  pub node_id : String
  pub hostname : String
  pub resources : NodeResources
  pub state : NodeState
  pub reliability_score : ℕ
  pub latency_score : ℕ
  pub pool : ResourcePool
  pub preemptible : Bool
  pub location : String
  pub tags : Dict String

-- Is the first there and below the second, where both are there?
abbrev below : Option ℕ → Option ℕ → Bool
below (some a) (some b) = ltb a b
below _ _ = false

-- The early returns of `meets_requirements`, in its order.
unfoldable pub meets_requirements : Node → ResourceRequirements → Bool
meets_requirements n req =
    let r = n.resources in
    if ltb r.cpu_cores_free req.cpu_cores
    then false
    else if ltb r.ram_gb_free req.ram_gb
    then false
    else if ltb 0 req.gpu_count && ltb r.gpu_count req.gpu_count
    then false
    else if ltb 0 req.gpu_count && (ltb 0 req.vram_gb && ltb r.vram_gb_free req.vram_gb)
    then false
    else if ltb 0 req.gpu_count && below r.cuda_version req.cuda_version
    then false
    else if ltb 0 req.network_gbps && ltb r.network_gbps req.network_gbps
    then false
    else if below r.battery_pct req.min_battery_pct
    then false
    else same_state n.state healthy

-- ===== src/Sim/Agent.antt =====
-- `SimAgent` of mesh/sim/agent.py. Shares (utilisation) are in thousandths as quantities are, and
-- products of both are rounded down to thousandths.
use cluster_mesh.Prelude.{
  ℕ, ◌-◌, ◌*◌, ◌/◌, String, Bool, true, false, Option, none, some, List, [], ◌==◌, if◌then◌else◌,
}
use cluster_mesh.Models.{Node, NodeState, dead, ResourcePool}

pub record SimAgent : Type 0 where
  pub node_id : String
  pub cpu_cores : ℕ
  pub ram_gb : ℕ
  pub gpu_count : ℕ
  pub vram_gb : ℕ
  pub cuda_version : Option ℕ
  pub network_gbps : ℕ
  pub battery_pct : Option ℕ
  pub preemptible : Bool
  pub reliability : ℕ
  pub latency_score : ℕ
  pub pool : ResourcePool
  pub location : String
  pub hostname : String
  pub alive : Bool
  pub user_active : Bool
  pub cpu_utilization : ℕ
  pub assigned_tasks : List String
  pub partitioned : Bool

-- `__post_init__`
unfoldable pub named : SimAgent → SimAgent
named a = record a { hostname = if a.hostname == "" then a.node_id else a.hostname }

unfoldable pub to_node : NodeState → SimAgent → Node
to_node state a =
    let free_cpu = a.cpu_cores * (1_000 - a.cpu_utilization) / 1_000 in
    record {
      node_id = a.node_id;
      hostname = a.hostname;
      resources = record {
        cpu_cores_total = a.cpu_cores;
        cpu_cores_free = if a.alive then free_cpu else 0;
        ram_gb_total = a.ram_gb;
        ram_gb_free = if a.alive then a.ram_gb * 7 / 10 else 0;
        gpu_count = a.gpu_count;
        vram_gb_free = if a.alive then a.vram_gb else 0;
        cuda_version = a.cuda_version;
        network_gbps = a.network_gbps;
        battery_pct = a.battery_pct;
        cpu_utilization = a.cpu_utilization;
        user_active = a.user_active;
      };
      state = if a.alive then state else dead;
      reliability_score = a.reliability;
      latency_score = a.latency_score;
      pool = a.pool;
      preemptible = a.preemptible;
      location = a.location;
      tags = [];
    }

unfoldable pub kill : SimAgent → SimAgent
kill a = record a { alive = false }

unfoldable pub preempt : ℕ → SimAgent → SimAgent
preempt cpu_spike a = record a { user_active = true; cpu_utilization = cpu_spike }

unfoldable pub drain_battery : ℕ → SimAgent → SimAgent
drain_battery to_pct a = elim a.battery_pct [
  | none ↦ a
  | some _ ↦ record a { battery_pct = some to_pct }
]

-- ===== src/Driver/Servicer/Wire.antt =====
-- What of a machine's resources reaches the driver.
use cluster_mesh.Prelude.{
  ℕ, String, ◌≡◌, ◌≢◌, ap, ◌∙◌, true, false, Option, none, some, arith, eqb, leb, if◌then◌else◌,
}
use cluster_mesh.Models.{Node, NodeResources}
use cluster_mesh.Scheduler.Pools.{PoolRouter, passes_battery_gate}
use cluster_mesh.Agent.Client.{ResourceReport, resource_msg, battery_or}
use cluster_mesh.Driver.Servicer.{snapshot_to_resources, RegisterRequest, node_of}

-- A battery as the driver sees it: an empty one is none.
abbrev pub seen_battery : Option ℕ → Option ℕ
seen_battery none = none
seen_battery (some pct) = if eqb pct 0 then none else some pct

-- The driver reads back the resources that the agent sent, field by field, except that an empty
-- battery (0%) arrives as no battery.
pub snapshot_to_resources-resource_msg :
    (node_id metrics : String) (s : NodeResources)
    → snapshot_to_resources (resource_msg node_id s metrics)
      ≡ record s { battery_pct = seen_battery s.battery_pct }
unfolding snapshot_to_resources resource_msg battery_or
snapshot_to_resources-resource_msg node_id metrics s = ground arith

gate_none :
    (p : PoolRouter) (n : Node) → n.resources.battery_pct ≡ none → passes_battery_gate p n ≡ true
unfolding passes_battery_gate
gate_none p n h = rw h

gate_fails : (p : PoolRouter) → p.battery_min_pct ≢ 0 → leb p.battery_min_pct 0 ≡ false
gate_fails p asks = ground arith

-- So a machine on an empty battery that registers passes the battery gate of every pool, although
-- one with its real resources would fail it wherever the gate asks for more than nothing.
empty_battery_passes :
    (p : PoolRouter) (request : RegisterRequest) (metrics : String) (s : NodeResources)
    → s.battery_pct ≡ some 0
    → request.resources ≡ resource_msg request.node_id s metrics
    → p.battery_min_pct ≢ 0
    → (passes_battery_gate p (node_of request) ≡ true)
      × (passes_battery_gate p (record (node_of request) { resources = s }) ≡ false)
unfolding passes_battery_gate node_of
empty_battery_passes p request metrics s empty sent asks =
    let seen : (node_of request).resources.battery_pct ≡ none =
      ap (λ (r : ResourceReport). (snapshot_to_resources r).battery_pct) sent
      ∙ ap (λ (r : NodeResources). r.battery_pct)
          (snapshot_to_resources-resource_msg request.node_id metrics s)
      ∙ ap seen_battery empty in
    (gate_none p (node_of request) seen, rw empty (gate_fails p asks))

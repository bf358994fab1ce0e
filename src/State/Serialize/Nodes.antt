-- ===== src/State/Serialize/Nodes.antt =====
-- `node_to_dict` and `node_from_dict` of mesh/state/serialize.py.
use cluster_mesh.Prelude.{
  ◌>>=◌, String, Option, none, some, [], ◌∷◌, ◌==◌, not, if◌then◌else◌, false,
}
use cluster_mesh.Models.{Node, NodeState, NodeResources}
use cluster_mesh.State.Json.{
  Value, Members, members, of_texts, as_number, as_text, as_flag, as_dict, as_object, nullable,
  or_null, required, given, only,
}
use cluster_mesh.State.Serialize.Tasks.{pool_name, pool_of}

abbrev pub node_state_name : NodeState → String
node_state_name NodeState.healthy = "HEALTHY"
node_state_name NodeState.suspected = "SUSPECTED"
node_state_name NodeState.dead = "DEAD"
node_state_name NodeState.preempted = "PREEMPTED"
node_state_name NodeState.offline = "OFFLINE"

-- `NodeState[name]`
abbrev pub node_state_of : String → Option NodeState
node_state_of name =
    if name == "HEALTHY"
    then some NodeState.healthy
    else if name == "SUSPECTED"
    then some NodeState.suspected
    else if name == "DEAD"
    then some NodeState.dead
    else if name == "PREEMPTED"
    then some NodeState.preempted
    else if name == "OFFLINE"
    then some NodeState.offline
    else none

-- `asdict(r)`
unfoldable pub resources_to_dict : NodeResources → Members
resources_to_dict r = members (
    ("cpu_cores_total", Value.number r.cpu_cores_total)
    ∷ ("cpu_cores_free", Value.number r.cpu_cores_free)
    ∷ ("ram_gb_total", Value.number r.ram_gb_total)
    ∷ ("ram_gb_free", Value.number r.ram_gb_free)
    ∷ ("gpu_count", Value.number r.gpu_count)
    ∷ ("vram_gb_free", Value.number r.vram_gb_free)
    ∷ ("cuda_version", or_null Value.number r.cuda_version)
    ∷ ("network_gbps", Value.number r.network_gbps)
    ∷ ("battery_pct", or_null Value.number r.battery_pct)
    ∷ ("cpu_utilization", Value.number r.cpu_utilization)
    ∷ ("user_active", Value.flag r.user_active)
    ∷ [])

-- `NodeResources(**r)`
unfoldable pub resources_from_dict : Members → Option NodeResources
unfolding only
resources_from_dict r =
    if not (
      only
        ("cpu_cores_total" ∷ "cpu_cores_free" ∷ "ram_gb_total" ∷ "ram_gb_free" ∷ "gpu_count"
          ∷ "vram_gb_free" ∷ "cuda_version" ∷ "network_gbps" ∷ "battery_pct" ∷ "cpu_utilization"
          ∷ "user_active" ∷ [])
        r)
    then none
    else do
      cpu_cores_total ← required as_number "cpu_cores_total" r
      cpu_cores_free ← required as_number "cpu_cores_free" r
      ram_gb_total ← required as_number "ram_gb_total" r
      ram_gb_free ← required as_number "ram_gb_free" r
      gpu_count ← given as_number 0 "gpu_count" r
      vram_gb_free ← given as_number 0 "vram_gb_free" r
      cuda_version ← given (nullable as_number) none "cuda_version" r
      network_gbps ← given as_number 1_000 "network_gbps" r
      battery_pct ← given (nullable as_number) none "battery_pct" r
      cpu_utilization ← given as_number 0 "cpu_utilization" r
      user_active ← given as_flag false "user_active" r
      some (record {
        cpu_cores_total = cpu_cores_total;
        cpu_cores_free = cpu_cores_free;
        ram_gb_total = ram_gb_total;
        ram_gb_free = ram_gb_free;
        gpu_count = gpu_count;
        vram_gb_free = vram_gb_free;
        cuda_version = cuda_version;
        network_gbps = network_gbps;
        battery_pct = battery_pct;
        cpu_utilization = cpu_utilization;
        user_active = user_active;
      })

unfoldable pub node_to_dict : Node → Members
unfolding resources_to_dict of_texts
node_to_dict node = members (
    ("node_id", Value.text node.node_id)
    ∷ ("hostname", Value.text node.hostname)
    ∷ ("state", Value.text (node_state_name node.state))
    ∷ ("reliability_score", Value.number node.reliability_score)
    ∷ ("latency_score", Value.number node.latency_score)
    ∷ ("pool", Value.text (pool_name node.pool))
    ∷ ("preemptible", Value.flag node.preemptible)
    ∷ ("location", Value.text node.location)
    ∷ ("tags", Value.object (of_texts node.tags))
    ∷ ("resources", Value.object (resources_to_dict node.resources))
    ∷ [])

unfoldable pub node_from_dict : Members → Option Node
unfolding resources_from_dict
node_from_dict d = do
  r ← required as_object "resources" d
  node_id ← required as_text "node_id" d
  hostname ← required as_text "hostname" d
  resources ← resources_from_dict r
  state_name ← required as_text "state" d
  state ← node_state_of state_name
  reliability_score ← given as_number 800 "reliability_score" d
  latency_score ← given as_number 900 "latency_score" d
  name_of_pool ← given as_text "CPU" "pool" d
  pool ← pool_of name_of_pool
  preemptible ← given as_flag false "preemptible" d
  location ← given as_text "default" "location" d
  tags ← given as_dict [] "tags" d
  some (record {
    node_id = node_id;
    hostname = hostname;
    resources = resources;
    state = state;
    reliability_score = reliability_score;
    latency_score = latency_score;
    pool = pool;
    preemptible = preemptible;
    location = location;
    tags = tags;
  })

-- ===== src/Agent/Client.antt =====
-- What an agent tells its driver: `DriverClient._resource_msg` and `task_complete` of
-- mesh/agent/client.py, and `AgentDaemon._on_complete` of mesh/agent/daemon.py.
use cluster_mesh.Prelude.{
  ℕ, String, Bool, true, false, Option, none, some, ◌==◌, eqb, if◌then◌else◌,
}
use cluster_mesh.Prelude.Int.{ℤ, pos, negsuc}
use cluster_mesh.Models.{NodeResources}

-- The message's fields that the driver reads. Protocol buffers have no None: the empty text stands
-- for a missing version and -1 for a missing battery, and here the version alone is optional.
pub record ResourceReport : Type 0 where
  pub node_id : String
  pub cpu_cores_total : ℕ
  pub cpu_cores_free : ℕ
  pub ram_gb_total : ℕ
  pub ram_gb_free : ℕ
  pub gpu_count : ℕ
  pub vram_gb_free : ℕ
  pub cuda_version : Option ℕ
  pub network_gbps : ℕ
  pub battery_pct : ℤ
  pub cpu_utilization : ℕ
  pub user_active : Bool
  pub host_metrics_json : String

-- `s.battery_pct or -1`
unfoldable pub battery_or : Option ℕ → ℤ
battery_or none = negsuc 0
battery_or (some pct) = if eqb pct 0 then negsuc 0 else pos pct

-- The snapshot of the host has the fields of `NodeResources`, and the metrics beside it.
unfoldable pub resource_msg : String → NodeResources → String → ResourceReport
unfolding battery_or
resource_msg node_id s host_metrics_json = record {
  node_id = node_id;
  cpu_cores_total = s.cpu_cores_total;
  cpu_cores_free = s.cpu_cores_free;
  ram_gb_total = s.ram_gb_total;
  ram_gb_free = s.ram_gb_free;
  gpu_count = s.gpu_count;
  vram_gb_free = s.vram_gb_free;
  cuda_version = s.cuda_version;
  network_gbps = s.network_gbps;
  battery_pct = battery_or s.battery_pct;
  cpu_utilization = s.cpu_utilization;
  user_active = s.user_active;
  host_metrics_json = host_metrics_json;
}

-- A result is the JSON text of the value, that of None is `null`.
abbrev pub null : String
null = "null"

pub record TaskCompleteReport : Type 0 where
  pub task_id : String
  pub success : Bool
  pub result_json : String
  pub error : String

unfoldable pub task_complete : String → Bool → String → String → TaskCompleteReport
task_complete task_id success result error = record {
  task_id = task_id;
  success = success;
  result_json = if result == null then "" else result;
  error = error;
}

-- `_on_complete`, with the report that it sends; the error is None or a text.
unfoldable pub on_complete : String → String → Option String → Option TaskCompleteReport
unfolding task_complete
on_complete task_id result none = some (task_complete task_id true result "")
on_complete task_id result (some error) =
    if error == ""
    then some (task_complete task_id true result "")
    else if error == "interrupted"
    then none
    else some (task_complete task_id false null error)

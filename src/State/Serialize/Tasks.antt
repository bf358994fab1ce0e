-- ===== src/State/Serialize/Tasks.antt =====
-- `task_to_dict` and `task_from_dict` of mesh/state/serialize.py, with the defaults that `TaskSpec`
-- and `ResourceRequirements` of mesh/models/task.py give. The callable is not written.
use cluster_mesh.Prelude.{
  ◌>>=◌, String, Option, true, none, some, [], ◌∷◌, ◌==◌, not, if◌then◌else◌, false,
}
use cluster_mesh.Models.{TaskSpec, TaskState, ResourcePool, ResourceRequirements}
use cluster_mesh.State.Json.{
  Value, Members, members, of_texts, value_at, as_number, as_text, as_flag, as_dict, as_object,
  nullable, or_null, required, given, only,
}

abbrev pub pool_name : ResourcePool → String
pool_name ResourcePool.cpu = "CPU"
pool_name ResourcePool.memory = "MEMORY"
pool_name ResourcePool.gpu = "GPU"
pool_name ResourcePool.night = "NIGHT"

-- `ResourcePool[name]`
abbrev pub pool_of : String → Option ResourcePool
pool_of name =
    if name == "CPU"
    then some ResourcePool.cpu
    else if name == "MEMORY"
    then some ResourcePool.memory
    else if name == "GPU"
    then some ResourcePool.gpu
    else if name == "NIGHT"
    then some ResourcePool.night
    else none

abbrev pub task_state_name : TaskState → String
task_state_name TaskState.pending = "PENDING"
task_state_name TaskState.running = "RUNNING"
task_state_name TaskState.checkpointing = "CHECKPOINTING"
task_state_name TaskState.paused = "PAUSED"
task_state_name TaskState.completed = "COMPLETED"
task_state_name TaskState.failed = "FAILED"
task_state_name TaskState.migrating = "MIGRATING"

-- `TaskState[name]`
abbrev pub task_state_of : String → Option TaskState
task_state_of name =
    if name == "PENDING"
    then some TaskState.pending
    else if name == "RUNNING"
    then some TaskState.running
    else if name == "CHECKPOINTING"
    then some TaskState.checkpointing
    else if name == "PAUSED"
    then some TaskState.paused
    else if name == "COMPLETED"
    then some TaskState.completed
    else if name == "FAILED"
    then some TaskState.failed
    else if name == "MIGRATING"
    then some TaskState.migrating
    else none

-- `asdict(task.requirements)`
unfoldable pub requirements_to_dict : ResourceRequirements → Members
requirements_to_dict req = members (
    ("cpu_cores", Value.number req.cpu_cores)
    ∷ ("ram_gb", Value.number req.ram_gb)
    ∷ ("gpu_count", Value.number req.gpu_count)
    ∷ ("vram_gb", Value.number req.vram_gb)
    ∷ ("cuda_version", or_null Value.number req.cuda_version)
    ∷ ("network_gbps", Value.number req.network_gbps)
    ∷ ("min_battery_pct", or_null Value.number req.min_battery_pct)
    ∷ [])

-- `ResourceRequirements(**req)`
unfoldable pub requirements_from_dict : Members → Option ResourceRequirements
unfolding only
requirements_from_dict req =
    if not (
      only
        ("cpu_cores" ∷ "ram_gb" ∷ "gpu_count" ∷ "vram_gb" ∷ "cuda_version" ∷ "network_gbps"
          ∷ "min_battery_pct" ∷ [])
        req)
    then none
    else do
      cpu_cores ← given as_number 1_000 "cpu_cores" req
      ram_gb ← given as_number 1_000 "ram_gb" req
      gpu_count ← given as_number 0 "gpu_count" req
      vram_gb ← given as_number 0 "vram_gb" req
      cuda_version ← given (nullable as_number) none "cuda_version" req
      network_gbps ← given as_number 0 "network_gbps" req
      min_battery_pct ← given (nullable as_number) none "min_battery_pct" req
      some (record {
        cpu_cores = cpu_cores;
        ram_gb = ram_gb;
        gpu_count = gpu_count;
        vram_gb = vram_gb;
        cuda_version = cuda_version;
        network_gbps = network_gbps;
        min_battery_pct = min_battery_pct;
      })

unfoldable pub task_to_dict : TaskSpec → Members
unfolding requirements_to_dict of_texts
task_to_dict task = members (
    ("task_id", Value.text task.task_id)
    ∷ ("name", Value.text task.name)
    ∷ ("job_id", or_null Value.text task.job_id)
    ∷ ("replica_index", Value.number task.replica_index)
    ∷ ("state", Value.text (task_state_name task.state))
    ∷ ("assigned_node", or_null Value.text task.assigned_node)
    ∷ ("progress", Value.number task.progress)
    ∷ ("total_work", Value.number task.total_work)
    ∷ ("state_data", Value.object (of_texts task.state_data))
    ∷ ("replicas", Value.number task.replicas)
    ∷ ("checkpoint", Value.flag task.checkpoint)
    ∷ ("checkpoint_interval", Value.number task.checkpoint_interval)
    ∷ ("preemption_ok", Value.flag task.preemption_ok)
    ∷ ("pool", or_null (λ p. Value.text (pool_name p)) task.pool)
    ∷ ("requirements", Value.object (requirements_to_dict task.requirements))
    ∷ [])

-- `ResourcePool[d["pool"]] if d.get("pool") else None`
abbrev pub pool_from : Option Value → Option (Option ResourcePool)
pool_from none = some none
pool_from (some Value.null) = some none
pool_from (some v) = do
  name ← as_text v
  if name == "" then some none else do pool ← pool_of name; some (some pool)

unfoldable pub task_from_dict : Members → Option TaskSpec
unfolding requirements_from_dict
task_from_dict d = do
  pool ← pool_from (value_at "pool" d)
  req ← given as_object Members.end "requirements" d
  name ← required as_text "name" d
  requirements ← requirements_from_dict req
  replicas ← given as_number 1 "replicas" d
  checkpoint ← given as_flag false "checkpoint" d
  checkpoint_interval ← given as_number 30_000 "checkpoint_interval" d
  preemption_ok ← given as_flag true "preemption_ok" d
  task_id ← required as_text "task_id" d
  job_id ← given (nullable as_text) none "job_id" d
  replica_index ← given as_number 0 "replica_index" d
  state_name ← required as_text "state" d
  state ← task_state_of state_name
  assigned_node ← given (nullable as_text) none "assigned_node" d
  progress ← given as_number 0 "progress" d
  total_work ← given as_number 1_000 "total_work" d
  state_data ← given as_dict [] "state_data" d
  some (record {
    name = name;
    requirements = requirements;
    pool = pool;
    replicas = replicas;
    checkpoint = checkpoint;
    checkpoint_interval = checkpoint_interval;
    preemption_ok = preemption_ok;
    task_id = task_id;
    job_id = job_id;
    replica_index = replica_index;
    state = state;
    assigned_node = assigned_node;
    progress = progress;
    total_work = total_work;
    state_data = state_data;
    fn = none;
  })

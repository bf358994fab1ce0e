-- ===== src/Tests/Data.antt =====
-- Nodes, tasks and jobs for the examples, and floats as numbers of millionths.
use cluster_mesh.Prelude.{
  ℕ, ◌+◌, ◌*◌, ◌/◌, String, false, true, none, some, List, [], ◌∷◌, leb, arith, Option, ◌≡◌, ◌≢◌,
  ◌==◌, eq_iff,
}
use cluster_mesh.Prelude.Sort.{IsOrder}
use cluster_mesh.Models.{
  Node, healthy, cpu, TaskSpec, ResourceRequirements, TaskState, Job, JobState,
}
use cluster_mesh.Scheduler.Scoring.{Float, default_weights}
use cluster_mesh.Scheduler.Pools.{default_router}
use cluster_mesh.Scheduler.Placement.{PlacementEngine}
use cluster_mesh.Jobs.Manager.{JobManager}

abbrev pub millionths : Float
millionths = record {
  F = ℕ;
  zero_f = 0;
  one_f = 1_000_000;
  ratio = λ a b. a * 1_000_000 / b;
  add = λ a b. a + b;
  mul = λ a b. a * b / 1_000_000;
  round6 = λ a. a;
  le = leb;
}

pub millionths-IsOrder : IsOrder leb
millionths-IsOrder = record { total = λ x y h. ground arith; trans = λ x y z h k. ground arith }

pub texts_differ : (s t : String) → (s == t) ≡ false → s ≢ t
texts_differ s t h = ground (arith, eq_iff s t)

abbrev pub engine : PlacementEngine
engine = record { scorer = default_weights; pool_router = default_router }

abbrev pub node : String → ℕ → Node
node id cores = record {
  node_id = id;
  hostname = id;
  resources = record {
    cpu_cores_total = cores;
    cpu_cores_free = cores;
    ram_gb_total = 16_000;
    ram_gb_free = 16_000;
    gpu_count = 0;
    vram_gb_free = 0;
    cuda_version = none;
    network_gbps = 1_000;
    battery_pct = none;
    cpu_utilization = 0;
    user_active = false;
  };
  state = healthy;
  reliability_score = 1_000;
  latency_score = 1_000;
  pool = cpu;
  preemptible = false;
  location = "lab";
  tags = [];
}

abbrev pub nodes : List Node
nodes = node "a" 4_000 ∷ node "b" 8_000 ∷ []

abbrev pub requirements : ℕ → ResourceRequirements
requirements cores = record {
  cpu_cores = cores;
  ram_gb = 2_000;
  gpu_count = 0;
  vram_gb = 0;
  cuda_version = none;
  network_gbps = 0;
  min_battery_pct = none;
}

abbrev pub task : String → ℕ → TaskState → Option String → TaskSpec
task id cores state assigned_node = record {
  name = "train";
  requirements = requirements cores;
  pool = none;
  replicas = 1;
  checkpoint = true;
  checkpoint_interval = 5_000;
  preemption_ok = true;
  task_id = id;
  job_id = some "job";
  replica_index = 0;
  state = state;
  assigned_node = assigned_node;
  progress = 30;
  total_work = 100;
  state_data = [];
  fn = none;
}

abbrev pub job : JobState → Job
job state = record {
  job_id = "job";
  name = "train";
  state = state;
  task_ids = "t" ∷ [];
  result = none;
  error = none;
  idempotency_key = none;
  completed_task_id = none;
}

-- A manager of one job with the listed tasks.
abbrev pub manager : List String → List (String × TaskSpec) → JobManager
manager ids tasks = record {
  jobs = ("job", job JobState.running) ∷ [];
  job_tasks = ("job", ids) ∷ [];
  idempotency = [];
  running = "t" ∷ [];
  tasks = tasks;
  start_times = ("t", 5) ∷ [];
  speculative = ("t", "dup") ∷ [];
  checkpoints = [];
  remotes = [];
  state_store = some (record { jobs = []; tasks = []; checkpoints = [] });
  leads = true;
  signals = [];
}

-- ===== src/Api/Notebook.antt =====
-- The nodes on which mesh/api/app.py says that a notebook cell can run. `live` is what `live_nodes()`
-- answers; the id of the probing task is fresh.
pub mod Runs
use cluster_mesh.Prelude.{
  ℕ, String, Bool, true, false, ◌&&◌, Option, none, some, List, [], ◌∷◌, select,
}
use cluster_mesh.Models.{Node, TaskSpec, healthy, same_state, pending}
use cluster_mesh.Scheduler.Scoring.{Float}
use cluster_mesh.Scheduler.Placement.{PlacementEngine, place}

abbrev pub notebook_task_spec : String → TaskSpec
notebook_task_spec task_id = record {
  name = "notebook.exec";
  requirements = record {
    cpu_cores = 1_000;
    ram_gb = 500;
    gpu_count = 0;
    vram_gb = 0;
    cuda_version = none;
    network_gbps = 0;
    min_battery_pct = none;
  };
  pool = none;
  replicas = 1;
  checkpoint = false;
  checkpoint_interval = 30_000;
  preemption_ok = true;
  task_id = task_id;
  job_id = none;
  replica_index = 0;
  state = pending;
  assigned_node = none;
  progress = 0;
  total_work = 1_000;
  state_data = [];
  fn = none;
}

-- Is there one?
abbrev pub is_some {ℓ} : {A : Type ℓ} → Option A → Bool
is_some none = false
is_some (some a) = true

module _ (f : Float) (e : PlacementEngine) (hour : ℕ) (task_id : String) where
  -- The test of the loop: the node alone would get the task.
  abbrev pub runs_on : Node → Bool
  runs_on node =
      same_state node.state healthy
      && is_some (place f e (notebook_task_spec task_id) (node ∷ []) hour)

  unfoldable pub notebook_runnable_nodes : List Node → List Node
  notebook_runnable_nodes live = select runs_on live

-- ===== src/Models/Tasks.antt =====
-- mesh/models/task.py and `Checkpoint` of mesh/recovery/checkpoint.py.
-- Quantities are natural numbers of thousandths (cores, GB, Gbps, percent, seconds, work).
use cluster_mesh.Prelude.{ℕ, ◌*◌, ◌/◌, min, String, Bool, Option, eqb, if◌then◌else◌}
use cluster_mesh.Prelude.Dict.{Dict}
use cluster_mesh.Models.Enums.{ResourcePool, TaskState}

-- `cuda_version` is the number before the first dot, which is all that the program reads of it.
pub record ResourceRequirements : Type 0 where
  pub cpu_cores : ℕ
  pub ram_gb : ℕ
  pub gpu_count : ℕ
  pub vram_gb : ℕ
  pub cuda_version : Option ℕ
  pub network_gbps : ℕ
  pub min_battery_pct : Option ℕ

-- `fn` is the name under which a callable is known, `none` where the source has no callable.
pub record TaskSpec : Type 0 where
  pub name : String
  pub requirements : ResourceRequirements
  pub pool : Option ResourcePool
  pub replicas : ℕ
  pub checkpoint : Bool
  pub checkpoint_interval : ℕ
  pub preemption_ok : Bool
  pub task_id : String
  pub job_id : Option String
  pub replica_index : ℕ
  pub state : TaskState
  pub assigned_node : Option String
  pub progress : ℕ
  pub total_work : ℕ
  pub state_data : Dict String
  pub fn : Option String

-- In thousandths of a percent.
pub progress_pct : TaskSpec → ℕ
progress_pct t =
    if eqb t.total_work 0 then 100_000 else min 100_000 (t.progress * 100_000 / t.total_work)

pub record Checkpoint : Type 0 where
  pub task_id : String
  pub progress : ℕ
  pub state_data : Dict String
  pub timestamp : ℕ

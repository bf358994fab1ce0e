-- ===== src/Api/Pool.antt =====
-- The routes of mesh/api/app.py under /api/v1/memory/, with their payloads of mesh/api/context.py. A
-- size is thousandths of a GB; a negative one is as refused as zero. The id of a new allocation and the
-- id and time of an event are given, and `shown` writes a size.
pub mod Accounts
use Prim.Native.String.{◌++◌}
use cluster_mesh.Prelude.{ℕ, String, Bool, Option, none, some, List, [], ◌∷◌, if◌then◌else◌}
use cluster_mesh.Prelude.Dict.{Dict, values}
use cluster_mesh.Driver.Cluster.{Cluster, live_nodes}
use cluster_mesh.Memory.Fabric.{
  MemoryFabric, MemoryAllocation, MemoryPoolStats, pool_stats, allocate, release,
}
use cluster_mesh.Api.Events.{EventBus, LogEvent, info, emit}

-- What the routes reach of the application's context.
pub record Context : Type 0 where
  pub cluster : Cluster
  pub memory : MemoryFabric
  pub bus : EventBus

pub record Stamp : Type 0 where
  pub id : String
  pub timestamp : String

abbrev note : Stamp → String → Dict String → EventBus → EventBus
note stamp message metadata bus =
    emit
      (record {
        id = stamp.id;
        timestamp = stamp.timestamp;
        level = info;
        source = "memory";
        message = message;
        metadata = metadata;
      })
      bus

-- GET /api/v1/memory/pool
unfoldable pub memory_pool : ℕ → Context → MemoryPoolStats × Context
memory_pool now c =
    let (live, cluster) = live_nodes now c.cluster in
    (pool_stats c.memory live, record c { cluster = cluster })

-- GET /api/v1/memory/allocations
unfoldable pub memory_allocations : Context → List MemoryAllocation
memory_allocations c = values c.memory.allocations

-- POST /api/v1/memory/allocate; none is the answer "insufficient memory".
unfoldable pub memory_allocate :
    (ℕ → String)
    → Stamp
    → (now : ℕ) (new_id : String) (size : ℕ) (owner : String) → Context
    → Option MemoryAllocation × Context
memory_allocate shown stamp now new_id size owner c =
    let (live, cluster) = live_nodes now c.cluster in
    let (alloc, memory) = allocate new_id size live owner 1_000 c.memory in
    elim alloc [
      | none ↦ (none, record c { cluster = cluster; memory = memory })
      | some a ↦ (
        some a,
        record {
          cluster = cluster;
          memory = memory;
          bus =
              note stamp ("Allocated " ++ shown size ++ "GB logical memory")
                (("allocation_id", a.allocation_id) ∷ []) c.bus;
        },
      )
    ]

-- DELETE /api/v1/memory/allocations/{allocation_id}
unfoldable pub memory_release : Stamp → String → Context → Bool × Context
memory_release stamp allocation_id c =
    let (ok, memory) = release allocation_id c.memory in
    (
      ok,
      record c {
        memory = memory;
        bus = if ok then note stamp ("Released allocation " ++ allocation_id) [] c.bus else c.bus;
      },
    )

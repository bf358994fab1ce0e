-- ===== src/Tests/Memory.antt =====
-- 20 GB over two nodes of 16 GB each.
use cluster_mesh.Prelude.{◌≤◌, ◌≡◌, refl, arith, some, sum_of, All}
use cluster_mesh.Prelude.Dict.{get, keys, values, member}
use cluster_mesh.Memory.Fabric.{
  MemoryFabric, MemoryAllocation, init, allocate, release, pool_stats, free_on_node,
}
use cluster_mesh.Memory.Fabric.Loop.{size, held}
use cluster_mesh.Memory.Fabric.Grants.{allocate_grants}
use cluster_mesh.Memory.Fabric.Ledger.{IsBalanced}
use cluster_mesh.Memory.Fabric.Return.{release-allocate}
use cluster_mesh.Memory.Fabric.Capacity.{HasRam, allocate-capacity}
use cluster_mesh.Tests.Data.{nodes}

abbrev first : MemoryFabric
first = (allocate "m" 20_000 nodes "me" 500 init).1

init-IsBalanced : IsBalanced init
unfolding keys values get sum_of
init-IsBalanced = record { distinct = tt; held_by = λ id. refl }

release-allocate_example :
    pool_stats (release "m" (allocate "m" 20_000 nodes "me" 500 init).1).1 nodes
    ≡ pool_stats init nodes
unfolding get
release-allocate_example =
    release-allocate init nodes 500 "m" 20_000 "me" nodes init-IsBalanced refl

allocate_grants_example :
    (a : MemoryAllocation) × ((allocate "m" 20_000 nodes "me" 500 init).0 ≡ some a)
    × (sum_of size a.segments ≡ 20_000)
    × (get "m" (allocate "m" 20_000 nodes "me" 500 init).1.allocations ≡ some a)
unfolding sum_of free_on_node get
allocate_grants_example = allocate_grants init nodes 500 "m" 20_000 "me" (omega arith) (omega arith)

abbrev bound : All (HasRam "a" 16_000) nodes
bound = ((λ same. omega arith), ((λ same. omega arith), tt))

allocate-capacity_example : held "a" first.reserved ≤ 16_000
unfolding get member
allocate-capacity_example =
    allocate-capacity init nodes 500 "m" 20_000 "me" "a" 16_000 (refl, (refl, tt)) bound
      (omega arith)

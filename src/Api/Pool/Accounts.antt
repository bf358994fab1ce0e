-- ===== src/Api/Pool/Accounts.antt =====
-- What holds of the pool after any requests.
use cluster_mesh.Prelude.{
  ℕ, ◌<◌, ◌≤◌, String, ◌≡◌, refl, sym, subst, true, none, some, List, sum_of, inl, inr,
  Option-cases, arith, eq_iff,
}
use cluster_mesh.Prelude.Sort.{Has}
use cluster_mesh.Prelude.Sums.{Has-values}
use cluster_mesh.Prelude.Dict.{get, keys, values, get-put, get-remove}
use cluster_mesh.Driver.Cluster.{Cluster, live_nodes}
use cluster_mesh.Models.{Node}
use cluster_mesh.Memory.Fabric.{MemoryFabric, MemoryAllocation, init, allocate, release}
use cluster_mesh.Memory.Fabric.Loop.{size, held}
use cluster_mesh.Memory.Fabric.Grants.{
  pool, allocate-granted, allocate_refuses, granted, granted-size,
}
use cluster_mesh.Memory.Fabric.Return.{release_removes}
use cluster_mesh.Memory.Fabric.Ledger.{
  IsBalanced, share_on, allocate-IsBalanced, release-IsBalanced, granted_or_refused,
}
use cluster_mesh.Api.Events.{EventBus}
use cluster_mesh.Api.Pool.{
  Context, Stamp, memory_pool, memory_allocations, memory_allocate, memory_release,
}

-- A request, under a fresh id, or what other parts of the driver do to the cluster and the log.
pub data Step (shown : ℕ → String) (u : Context) : Context → Type 0 where
  looked : (now : ℕ) → Step shown u (memory_pool now u).1
  allocated :
      (stamp : Stamp) (now : ℕ) (new_id : String) (amount : ℕ) (owner : String)
      → get new_id u.memory.allocations ≡ none
      → Step shown u (memory_allocate shown stamp now new_id amount owner u).1
  released : (stamp : Stamp) (id : String) → Step shown u (memory_release stamp id u).1
  elsewhere :
      (cluster : Cluster) (bus : EventBus)
      → Step shown u (record u { cluster = cluster; bus = bus })

pub data Reach (shown : ℕ → String) (u : Context) : Context → Type 0 where
  here : Reach shown u u
  next : {v w : Context} → Reach shown u v → Step shown v w → Reach shown u w

-- An allocation stands under its own id, and its segments add up to its size.
pub record IsWhole (m : MemoryFabric) : Type 0 where
  pub named :
      (k : String) (a : MemoryAllocation) → get k m.allocations ≡ some a → a.allocation_id ≡ k
  pub whole :
      (k : String) (a : MemoryAllocation)
      → get k m.allocations ≡ some a
      → sum_of size a.segments ≡ a.total_gb

pub record IsSound (m : MemoryFabric) : Type 0 where
  pub balanced : IsBalanced m
  pub allocations : IsWhole m

memory-memory_allocate :
    (shown : ℕ → String) (stamp : Stamp) (now : ℕ) (new_id : String) (amount : ℕ) (owner : String)
    (u : Context)
    → (memory_allocate shown stamp now new_id amount owner u).1.memory
      ≡ (allocate new_id amount (live_nodes now u.cluster).0 owner 1_000 u.memory).1
unfolding memory_allocate
memory-memory_allocate shown stamp now new_id amount owner u =
    elim (Option-cases
      (allocate new_id amount (live_nodes now u.cluster).0 owner 1_000 u.memory).0) [
        | inl e ↦ rw (e, memory_allocate) refl
        | inr (a, e) ↦ rw (e, memory_allocate) refl
      ]

module _ (m : MemoryFabric) (nodes : List Node) (min_segment_gb : ℕ) (new_id : String) (amount : ℕ)
    (owner : String) where
  granted-IsWhole :
      0 < amount
      → amount ≤ pool m nodes min_segment_gb
      → IsWhole m
      → IsWhole (allocate new_id amount nodes owner min_segment_gb m).1
  granted-IsWhole positive fits w =
      let a = granted m nodes min_segment_gb new_id amount owner in
      rw (allocate-granted m nodes min_segment_gb new_id amount owner positive fits) (record {
        named = λ k b found.
            ground (arith, w.named k b, get-put new_id k a m.allocations, eq_iff new_id k, found);
        whole = λ k b found. ground (
          arith,
          w.whole k b,
          get-put new_id k a m.allocations,
          found,
          granted-size m nodes min_segment_gb new_id amount owner fits,
        );
      })

  allocate-IsWhole : IsWhole m → IsWhole (allocate new_id amount nodes owner min_segment_gb m).1
  allocate-IsWhole w = elim (granted_or_refused m nodes min_segment_gb new_id amount owner) [
    | inr refused ↦ rw (allocate_refuses m nodes min_segment_gb new_id amount owner refused) w
    | inl (positive, fits) ↦ granted-IsWhole positive fits w
  ]

release-IsWhole : (id : String) (m : MemoryFabric) → IsWhole m → IsWhole (release id m).1
release-IsWhole id m w =
    let kept : (k : String) (a : MemoryAllocation)
        → get k (release id m).1.allocations ≡ some a
        → get k m.allocations ≡ some a =
      λ k a found. ground (arith, get-remove id k m.allocations, release_removes id m, found) in
    record { named = λ k a h. w.named k a (kept k a h); whole = λ k a h. w.whole k a (kept k a h) }

Step-IsSound :
    {shown : ℕ → String} {u v : Context} → Step shown u v → IsSound u.memory → IsSound v.memory
unfolding memory_pool memory_release
Step-IsSound (looked now) s = s
Step-IsSound {shown = shown} {u = u} (allocated stamp now new_id amount owner fresh) s =
    let live = (live_nodes now u.cluster).0 in
    rw (memory-memory_allocate shown stamp now new_id amount owner u) (record {
      balanced = allocate-IsBalanced u.memory live 1_000 new_id amount owner fresh s.balanced;
      allocations = allocate-IsWhole u.memory live 1_000 new_id amount owner s.allocations;
    })
Step-IsSound {u = u} (released stamp id) s = record {
  balanced = release-IsBalanced id u.memory s.balanced;
  allocations = release-IsWhole id u.memory s.allocations;
}
Step-IsSound (elsewhere cluster bus) s = s

Reach-IsSound :
    {shown : ℕ → String} {u v : Context} → IsSound u.memory → Reach shown u v → IsSound v.memory
Reach-IsSound s here = s
Reach-IsSound s (next r st) = Step-IsSound st (Reach-IsSound s r)

init-IsSound : IsSound init
unfolding keys values get sum_of
init-IsSound = record {
  balanced = record { distinct = tt; held_by = λ id. refl };
  allocations = record { named = λ k a h. absurd (cc h); whole = λ k a h. absurd (cc h) };
}

-- What is reserved is what the listed allocations hold, each of these has segments that add up to its
-- size, and each can be released.
pub record IsAccounted (c : Context) : Type 0 where
  pub reserved :
      (id : String) → held id c.memory.reserved ≡ sum_of (share_on id) (memory_allocations c)
  pub whole :
      (a : MemoryAllocation) → Has a (memory_allocations c) → sum_of size a.segments ≡ a.total_gb
  pub releasable :
      (stamp : Stamp) (a : MemoryAllocation)
      → Has a (memory_allocations c)
      → (memory_release stamp a.allocation_id c).0 ≡ true

released_found :
    (id : String) (a : MemoryAllocation) (m : MemoryFabric)
    → get id m.allocations ≡ some a
    → (release id m).0 ≡ true
unfolding release
released_found id a m found = rw (found, release) refl

IsSound-IsAccounted : (c : Context) → IsSound c.memory → IsAccounted c
unfolding memory_allocations memory_release
IsSound-IsAccounted c s =
    let place : (a : MemoryAllocation)
        → Has a (values c.memory.allocations)
        → (k : String) × (get k c.memory.allocations ≡ some a) =
      λ a listed. Has-values a c.memory.allocations s.balanced.distinct listed in
    record {
      reserved = s.balanced.held_by;
      whole = λ a listed. s.allocations.whole (place a listed).0 a (place a listed).1;
      releasable = λ stamp a listed.
          let (k, found) = place a listed in
          released_found a.allocation_id a c.memory (
            subst (λ j. get j c.memory.allocations ≡ some a) (sym (s.allocations.named k a found))
              found);
    }

-- After any requests to the pool of a new driver, in any order and with anything happening to the
-- cluster in between, exactly the segments of the listed allocations are reserved on every node, each
-- listed allocation has segments that add up to its size, and each can be released, if the ids of new
-- allocations are fresh.
pub Reach-IsAccounted :
    (shown : ℕ → String) (u v : Context) → u.memory ≡ init → Reach shown u v → IsAccounted v
Reach-IsAccounted shown u v new r =
    IsSound-IsAccounted v (Reach-IsSound (subst IsSound (sym new) init-IsSound) r)

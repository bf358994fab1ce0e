-- ===== src/Memory/Fabric/Ledger.antt =====
-- What the reservations of a fabric add up to, and how far they go.
use cluster_mesh.Prelude.{
  ℕ, ◌≤◌, ◌<◌, String, ◌≡◌, none, List, arith, sum_of, ◌⊎◌, inl, inr, Option-cases,
}
use cluster_mesh.Prelude.Dict.{get, keys, values, Distinct}
use cluster_mesh.Prelude.Sums.{
  sum_of-values-put, sum_of-values-remove, keys-put-Distinct, keys-remove-Distinct,
}
use cluster_mesh.Models.{Node}
use cluster_mesh.Memory.Fabric.{MemoryFabric, MemoryAllocation, allocate, release}
use cluster_mesh.Memory.Fabric.Loop.{size_on, held, held-give_back, take_from-held}
use cluster_mesh.Memory.Fabric.Grants.{
  pool, pieces, start, granted, allocate-granted, allocate_refuses,
}

-- The size of an allocation's segments on a node.
abbrev pub share_on : String → MemoryAllocation → ℕ
share_on id a = sum_of (size_on id) a.segments

-- On every node exactly the segments of the live allocations are reserved.
pub record IsBalanced (m : MemoryFabric) : Type 0 where
  pub distinct : Distinct (keys m.allocations)
  pub held_by : (id : String) → held id m.reserved ≡ sum_of (share_on id) (values m.allocations)

module _ (m : MemoryFabric) (nodes : List Node) (min_segment_gb : ℕ) (new_id : String) (size_gb : ℕ)
    (owner : String) where
  pub granted_or_refused :
      ((0 < size_gb) × (size_gb ≤ pool m nodes min_segment_gb))
      ⊎ ((size_gb ≡ 0) ⊎ (pool m nodes min_segment_gb < size_gb))
  granted_or_refused = grind arith

  -- Where on every node exactly the segments of the live allocations are reserved, it is so after
  -- `allocate` under a fresh id, granted or refused.
  pub allocate-IsBalanced :
      get new_id m.allocations ≡ none
      → IsBalanced m
      → IsBalanced (allocate new_id size_gb nodes owner min_segment_gb m).1
  unfolding sum_of
  allocate-IsBalanced fresh b = elim granted_or_refused [
    | inr refused ↦ rw (allocate_refuses m nodes min_segment_gb new_id size_gb owner refused) b
    | inl (positive, fits) ↦
        rw (allocate-granted m nodes min_segment_gb new_id size_gb owner positive fits) (record {
          distinct = keys-put-Distinct new_id _ m.allocations b.distinct;
          held_by = λ id. omega (
            arith,
            b.held_by id,
            sum_of-values-put (share_on id) new_id
                (granted m nodes min_segment_gb new_id size_gb owner) m.allocations fresh,
            take_from-held min_segment_gb (pieces m nodes min_segment_gb)
                (start m nodes min_segment_gb new_id size_gb owner) id,
          );
        })
  ]

-- Where on every node exactly the segments of the live allocations are reserved, it is so after
-- `release`, whether the id is known or not.
pub release-IsBalanced :
    (id : String) (m : MemoryFabric) → IsBalanced m → IsBalanced (release id m).1
unfolding release
release-IsBalanced id m b = elim (Option-cases (get id m.allocations)) [
  | inl unknown ↦ rw (unknown, release) b
  | inr (a, known) ↦
      rw (known, release)
        (record {
          distinct = keys-remove-Distinct id m.allocations b.distinct;
          held_by = λ k. omega (
            arith,
            b.held_by k,
            held-give_back a.segments k m.reserved,
            sum_of-values-remove (share_on k) id a m.allocations b.distinct known,
          );
        })
]

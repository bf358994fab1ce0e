-- ===== src/Memory/Fabric/Grants.antt =====
-- When `allocate` succeeds, and with what.
use mathlib.Core.Path.{subst}
use cluster_mesh.Prelude.{
  ℕ, ◌≤◌, ◌<◌, String, ◌≡◌, ◌∙◌, false, none, some, List, [], arith, All, sum_of, leb, eq_refl, ◌⊎◌,
  leb→le, if◌then◌else◌,
}
use cluster_mesh.Prelude.Dict.{get, get-put, put}
use cluster_mesh.Prelude.Sort.{All_of, Has-map, Has-select_iff, Has-sort_by_iff, sort_by}
use cluster_mesh.Prelude.Sums.{sum_of-select, sum_of-sort_by, sum_of-map}
use cluster_mesh.Models.{Node}
use cluster_mesh.Memory.Fabric.{
  MemoryFabric, MemoryAllocation, Free, Taken, is_healthy, free_on_node, available, more_free,
  take_from, settle, allocate,
}
use cluster_mesh.Memory.Fabric.Loop.{size, free_of, take_from-total, take_from-remaining}

-- What `allocate` may take of a node.
abbrev pub usable : MemoryFabric → ℕ → Node → ℕ
usable m min_segment_gb n =
    if is_healthy n
    then (if leb min_segment_gb (free_on_node m n) then free_on_node m n else 0)
    else 0

module _ (m : MemoryFabric) (nodes : List Node) (min_segment_gb : ℕ) where
  abbrev pub pieces : List Free
  pieces = sort_by more_free (available m nodes min_segment_gb)

  pub sum_of-available :
      (g : Free → ℕ)
      → sum_of g (available m nodes min_segment_gb)
        ≡ sum_of
            (λ n.
              if is_healthy n
              then (if leb min_segment_gb (free_on_node m n) then g (n, free_on_node m n) else 0)
              else 0)
            nodes
  unfolding available
  sum_of-available g =
      sum_of-sort_by g _ _
      ∙ sum_of-map g (λ n. (n, free_on_node m n)) _
      ∙ sum_of-select (λ n. g (n, free_on_node m n)) (λ n. leb min_segment_gb (free_on_node m n)) _
      ∙ sum_of-select _ is_healthy nodes

  pieces_large : All (λ x. min_segment_gb ≤ x.1) pieces
  unfolding available
  pieces_large =
      All_of (λ x. min_segment_gb ≤ x.1) pieces
        λ x h.
          let (n, has, same) =
            Has-map (λ n. (n, free_on_node m n)) x _
              ((Has-sort_by_iff _ x _).0 ((Has-sort_by_iff more_free x _).0 h)) in
          let (_, large) =
            (Has-select_iff (λ n. leb min_segment_gb (free_on_node m n)) n _).0 has in
          subst (λ (y : Free). min_segment_gb ≤ y.1) same (leb→le _ _ large)

  abbrev pub pool : ℕ
  pool = sum_of (usable m min_segment_gb) nodes

  sum_of-pieces : sum_of free_of pieces ≡ pool
  sum_of-pieces = sum_of-sort_by free_of more_free _ ∙ sum_of-available free_of

  module _ (new_id : String) (size_gb : ℕ) (owner : String) where
    abbrev pub start : Taken
    start = record { remaining = size_gb; segments = []; reserved = m.reserved }

    abbrev pub final : Taken
    final = take_from min_segment_gb pieces start

    abbrev pub granted : MemoryAllocation
    granted = record {
      allocation_id = new_id;
      total_gb = size_gb;
      segments = final.segments;
      owner = owner;
      pinned = false;
    }

    final-remaining : size_gb ≤ pool → final.remaining ≡ 0
    final-remaining h =
        omega (arith, take_from-remaining min_segment_gb pieces start pieces_large, sum_of-pieces)

    -- What `allocate` returns, with its tests gone.
    pub allocate-granted :
        0 < size_gb
        → size_gb ≤ pool
        → allocate new_id size_gb nodes owner min_segment_gb m ≡ (
          some granted,
          record { allocations = put new_id granted m.allocations; reserved = final.reserved },
        )
    unfolding allocate settle
    allocate-granted positive fits = ground (arith, final-remaining fits, sum_of-available free_of)

    -- A size of zero, or one above what the healthy nodes with at least `min_segment_gb` free have
    -- free together, is refused and leaves the fabric as it is.
    pub allocate_refuses :
        (size_gb ≡ 0) ⊎ (pool < size_gb)
        → allocate new_id size_gb nodes owner min_segment_gb m ≡ (none, m)
    unfolding allocate
    allocate_refuses h = ground (arith, sum_of-available free_of)

    pub granted-size : size_gb ≤ pool → sum_of size granted.segments ≡ size_gb
    unfolding sum_of
    granted-size fits =
        omega (arith, take_from-total min_segment_gb pieces start, final-remaining fits)

    -- A positive size up to what the healthy nodes with at least `min_segment_gb` free have free
    -- together is granted and stored under its id, in segments that add up to exactly the size.
    pub allocate_grants :
        0 < size_gb
        → size_gb ≤ pool
        → (a : MemoryAllocation) × ((allocate new_id size_gb nodes owner min_segment_gb m).0
            ≡ some a)
          × (sum_of size a.segments ≡ size_gb)
          × (get new_id (allocate new_id size_gb nodes owner min_segment_gb m).1.allocations
              ≡ some a)
    allocate_grants positive fits = (
      granted,
      rw (allocate-granted positive fits),
      granted-size fits,
      rw (allocate-granted positive fits, get-put, eq_refl),
    )

-- ===== src/Memory/Fabric/Loop.antt =====
-- The loop of `allocate` and its rollback, over any list of pieces.
use cluster_mesh.Prelude.{
  ℕ, ◌+◌, ◌-◌, ◌≤◌, String, ◌≡◌, refl, List, [], ◌∷◌, ◌++◌, arith, All, min, sum_of, sum_of-append,
  ◌==◌, eq_iff, ◌⊎◌, inl, inr, if◌then◌else◌,
}
use cluster_mesh.Prelude.Dict.{Dict, get_or, get-put}
use cluster_mesh.Models.{Node}
use cluster_mesh.Memory.Fabric.{
  MemorySegment, Free, Taken, segment, reserve, unreserve, take_from, take_piece, give_back,
}

abbrev pub size : MemorySegment → ℕ
size s = s.size_gb

-- The size of the segments that lie on a node.
abbrev pub size_on : String → MemorySegment → ℕ
size_on id s = if s.node_id == id then s.size_gb else 0

abbrev pub free_of : Free → ℕ
free_of x = x.1

abbrev pub free_at : String → Free → ℕ
free_at id x = if x.0.node_id == id then x.1 else 0

-- What is reserved on a node.
abbrev pub held : String → Dict ℕ → ℕ
held id reserved = get_or 0 id reserved

held-reserve :
    (s : MemorySegment) (id : String) (reserved : Dict ℕ)
    → held id (reserve s reserved) ≡ held id reserved + size_on id s
held-reserve s id reserved = ground (
  arith,
  get-put s.node_id id (held s.node_id reserved + s.size_gb) reserved,
  eq_iff s.node_id id,
)

held-unreserve :
    (s : MemorySegment) (id : String) (reserved : Dict ℕ)
    → held id (unreserve s reserved) ≡ held id reserved - size_on id s
held-unreserve s id reserved = ground (
  arith,
  get-put s.node_id id (held s.node_id reserved - s.size_gb) reserved,
  eq_iff s.node_id id,
)

-- Giving segments back takes their sizes off, and never goes below zero.
pub held-give_back :
    (segments : List MemorySegment) (id : String) (reserved : Dict ℕ)
    → held id (give_back segments reserved) ≡ held id reserved - sum_of (size_on id) segments
unfolding give_back sum_of
held-give_back [] id reserved = omega arith
held-give_back (s ∷ rest) id reserved =
    omega (arith, held-give_back rest id (unreserve s reserved), held-unreserve s id reserved)

sum_of-snoc :
    (id : String) (l : List MemorySegment) (s : MemorySegment)
    → sum_of (size_on id) (l ++ s ∷ []) ≡ sum_of (size_on id) l + size_on id s
unfolding sum_of
sum_of-snoc id l s = omega (arith, sum_of-append (size_on id) l (s ∷ []))

module _ (min_segment_gb : ℕ) where
  -- What is still wanted and what was taken make up what was wanted.
  pub take_from-total :
      (l : List Free) (t : Taken)
      → sum_of size (take_from min_segment_gb l t).segments
          + (take_from min_segment_gb l t).remaining
        ≡ sum_of size t.segments + t.remaining
  unfolding take_from sum_of
  take_from-total [] t = refl
  take_from-total ((n, free) ∷ rest) t =
      let take = min free t.remaining in
      ground (
        arith,
        take_from-total rest t,
        take_from-total rest (take_piece n free t),
        sum_of-append size t.segments (segment n take ∷ []),
      )

  -- No piece is passed over: the loop takes all that is free, up to what is wanted.
  pub take_from-remaining :
      (l : List Free) (t : Taken)
      → All (λ x. min_segment_gb ≤ x.1) l
      → (take_from min_segment_gb l t).remaining ≡ t.remaining - sum_of free_of l
  unfolding take_from sum_of
  take_from-remaining [] t h = omega arith
  take_from-remaining ((n, free) ∷ rest) t h =
      ground (arith, take_from-remaining rest (take_piece n free t) h.1)

  -- A round stops the loop, passes the piece over or takes it.
  rounds :
      (n : Node) (free : ℕ) (rest : List Free) (t : Taken)
      → (take_from min_segment_gb ((n, free) ∷ rest) t ≡ t)
        ⊎ (take_from min_segment_gb ((n, free) ∷ rest) t ≡ take_from min_segment_gb rest t)
        ⊎ (take_from min_segment_gb ((n, free) ∷ rest) t
            ≡ take_from min_segment_gb rest (take_piece n free t))
  unfolding take_from
  rounds n free rest t = ground arith

  -- The reservations grow by exactly the segments that are taken.
  pub take_from-held :
      (l : List Free) (t : Taken) (id : String)
      → held id (take_from min_segment_gb l t).reserved + sum_of (size_on id) t.segments
        ≡ held id t.reserved + sum_of (size_on id) (take_from min_segment_gb l t).segments
  take_from-held [] t id = unfold take_from in refl
  take_from-held ((n, free) ∷ rest) t id = elim (rounds n free rest t) [
    | inl stopped ↦ rw stopped
    | inr (inl passed) ↦ rw passed (take_from-held rest t id)
    | inr (inr taken) ↦ rw taken (
        omega (
          arith,
          take_from-held rest (take_piece n free t) id,
          held-reserve (segment n (min free t.remaining)) id t.reserved,
          sum_of-snoc id t.segments (segment n (min free t.remaining)),
        ))
  ]

  -- A node's reservations grow by at most what was free on it.
  pub take_from-held_le :
      (l : List Free) (t : Taken) (id : String)
      → held id (take_from min_segment_gb l t).reserved ≤ held id t.reserved + sum_of (free_at id) l
  unfolding sum_of
  take_from-held_le [] t id = unfold take_from in omega arith
  take_from-held_le ((n, free) ∷ rest) t id = elim (rounds n free rest t) [
    | inl stopped ↦ rw stopped (omega arith)
    | inr (inl passed) ↦ rw passed (omega (arith, take_from-held_le rest t id))
    | inr (inr taken) ↦ rw taken (
        ground (
          arith,
          take_from-held_le rest (take_piece n free t) id,
          held-reserve (segment n (min free t.remaining)) id t.reserved,
        ))
  ]

-- ===== src/Memory/Fabric/Capacity.antt =====
-- A fabric never reserves more of a node than the node has free.
use mathlib.Core.Path.{subst}
use cluster_mesh.Prelude.{
  ℕ, ◌-◌, ◌≤◌, String, ◌≡◌, refl, ap, false, List, [], ◌∷◌, map, arith, All, sum_of, leb, ◌==◌,
  eq_iff, inl, inr, Bool-cases, if◌then◌else◌,
}
use cluster_mesh.Prelude.Dict.{member, Distinct}
use cluster_mesh.Prelude.Sort.{Has, All_at}
use cluster_mesh.Prelude.Sums.{sum_of-sort_by}
use cluster_mesh.Models.{Node}
use cluster_mesh.Memory.Fabric.{
  MemoryFabric, is_healthy, free_on_node, more_free, available, allocate,
}
use cluster_mesh.Memory.Fabric.Loop.{free_at, held, take_from-held_le}
use cluster_mesh.Memory.Fabric.Grants.{
  pieces, sum_of-available, start, allocate-granted, allocate_refuses,
}
use cluster_mesh.Memory.Fabric.Ledger.{granted_or_refused}

abbrev pub id_of : Node → String
id_of n = n.node_id

-- A node of that id has at most so much free memory.
abbrev pub HasRam : String → ℕ → Node → Type 0
HasRam id ram n = n.node_id ≡ id → n.resources.ram_gb_free ≤ ram

module _ (g : Node → ℕ) (id : String)
    (zero_off : (n : Node) → (n.node_id == id) ≡ false → g n ≡ 0) where
  sum_absent : (nodes : List Node) → member id (map id_of nodes) ≡ false → sum_of g nodes ≡ 0
  unfolding sum_of member
  sum_absent [] h = refl
  sum_absent (n ∷ nodes) h = ground (arith, zero_off n, sum_absent nodes)

  sum_once :
      (nodes : List Node) (most : ℕ)
      → Distinct (map id_of nodes)
      → ((n : Node) → Has n nodes → n.node_id ≡ id → g n ≤ most)
      → sum_of g nodes ≤ most
  unfolding sum_of
  sum_once [] most u b = omega arith
  sum_once (n ∷ nodes) most u b = elim (Bool-cases (n.node_id == id)) [
    | inl hit ↦
        let same = (eq_iff n.node_id id).0 hit in
        omega (
          arith,
          b n (inl refl) same,
          sum_absent nodes (subst (λ i. member i (map id_of nodes) ≡ false) same u.0),
        )
    | inr miss ↦ omega (arith, zero_off n miss, sum_once nodes most u.1 (λ k h. b k (inr h)))
  ]

module _ (m : MemoryFabric) (nodes : List Node) (min_segment_gb : ℕ) (new_id : String) (size_gb : ℕ)
    (owner : String) where
  abbrev offer : String → Node → ℕ
  offer id n =
      if is_healthy n
      then (if leb min_segment_gb (free_on_node m n) then free_at id (n, free_on_node m n) else 0)
      else 0

  offer_le :
      (id : String) (ram : ℕ) (n : Node)
      → n.node_id ≡ id
      → n.resources.ram_gb_free ≤ ram
      → offer id n ≤ ram - held id m.reserved
  unfolding free_on_node
  offer_le id ram n same h = ground (arith, ap (λ (k : String). held k m.reserved) same)

  -- With one node to an id: where what is reserved on a node was at most what the node has free, it
  -- is so after `allocate`.
  pub allocate-capacity :
      (id : String) (ram : ℕ)
      → Distinct (map id_of nodes)
      → All (HasRam id ram) nodes
      → held id m.reserved ≤ ram
      → held id (allocate new_id size_gb nodes owner min_segment_gb m).1.reserved ≤ ram
  allocate-capacity id ram u bound below =
      elim (granted_or_refused m nodes min_segment_gb new_id size_gb owner) [
        | inr refused ↦
            rw (allocate_refuses m nodes min_segment_gb new_id size_gb owner refused) below
        | inl (positive, fits) ↦
            rw (allocate-granted m nodes min_segment_gb new_id size_gb owner positive fits) (
              omega (
                arith,
                take_from-held_le min_segment_gb (pieces m nodes min_segment_gb)
                    (start m nodes min_segment_gb new_id size_gb owner) id,
                sum_of-sort_by (free_at id) more_free (available m nodes min_segment_gb),
                sum_of-available m nodes min_segment_gb (free_at id),
                sum_once (offer id) id (λ n off. ground arith) nodes (ram - held id m.reserved) u
                    (λ n has same.
                      offer_le id ram n same (All_at (HasRam id ram) n nodes bound has same)),
              ))
      ]

-- ===== src/Memory/Fabric/Return.antt =====
-- An allocation that is given back.
use cluster_mesh.Prelude.{
  ℕ, String, ◌≡◌, refl, sym, ap, ◌∙◌, none, List, [], ◌∷◌, arith, sum_of, inl, inr, Option-cases,
  eq_refl, ◌==◌, Bool-cases,
}
use cluster_mesh.Prelude.Dict.{Dict, get, put, remove, values}
use cluster_mesh.Models.{Node}
use cluster_mesh.Memory.Fabric.{
  MemoryFabric, allocate, release, pool_stats, free_on_node, eligible_nodes,
}
use cluster_mesh.Memory.Fabric.Loop.{held}
use cluster_mesh.Memory.Fabric.Grants.{allocate-granted, allocate_refuses}
use cluster_mesh.Memory.Fabric.Ledger.{
  IsBalanced, share_on, allocate-IsBalanced, release-IsBalanced, granted_or_refused,
}

remove_unknown : {V : Type 0} (k : String) (d : Dict V) → get k d ≡ none → remove k d ≡ d
unfolding get remove
remove_unknown k [] h = refl
remove_unknown k ((j, w) ∷ d) h = elim (Bool-cases (j == k)) [
  | inl hit ↦ absurd (cc (rw hit at h))
  | inr miss ↦ rw miss (ap (λ l. (j, w) ∷ l) (remove_unknown k d (rw miss at h)))
]

remove-put :
    {V : Type 0} (k : String) (v : V) (d : Dict V) → get k d ≡ none → remove k (put k v d) ≡ d
unfolding get remove put
remove-put k v [] h = rw (eq_refl k) refl
remove-put k v ((j, w) ∷ d) h = elim (Bool-cases (j == k)) [
  | inl hit ↦ absurd (cc (rw hit at h))
  | inr miss ↦ rw miss rw miss (ap (λ l. (j, w) ∷ l) (remove-put k v d (rw miss at h)))
]

free_again :
    (m u : MemoryFabric) (nodes : List Node)
    → ((id : String) → held id u.reserved ≡ held id m.reserved)
    → sum_of (free_on_node u) nodes ≡ sum_of (free_on_node m) nodes
unfolding sum_of free_on_node
free_again m u [] same = refl
free_again m u (n ∷ nodes) same = omega (arith, same n.node_id, free_again m u nodes same)

-- Fabrics with the same allocations, both balanced, have the same statistics.
pool_stats_same :
    (m u : MemoryFabric) (nodes : List Node)
    → IsBalanced m
    → IsBalanced u
    → u.allocations ≡ m.allocations
    → pool_stats u nodes ≡ pool_stats m nodes
unfolding pool_stats
pool_stats_same m u nodes b c same =
    let held_alike : (id : String) → held id u.reserved ≡ held id m.reserved =
      λ id. c.held_by id ∙ ap (λ d. sum_of (share_on id) (values d)) same ∙ sym (b.held_by id) in
    rw (free_again m u (eligible_nodes nodes) held_alike, same) refl

pub release_removes :
    (id : String) (m : MemoryFabric) → (release id m).1.allocations ≡ remove id m.allocations
unfolding release
release_removes id m = elim (Option-cases (get id m.allocations)) [
  | inl unknown ↦ rw (unknown, release) (sym (remove_unknown id m.allocations unknown))
  | inr (a, known) ↦ rw (known, release) refl
]

allocations_again :
    (m : MemoryFabric) (nodes : List Node) (min_segment_gb : ℕ) (new_id : String) (size_gb : ℕ)
    (owner : String)
    → get new_id m.allocations ≡ none
    → remove new_id (allocate new_id size_gb nodes owner min_segment_gb m).1.allocations
      ≡ m.allocations
allocations_again m nodes min_segment_gb new_id size_gb owner fresh =
    elim (granted_or_refused m nodes min_segment_gb new_id size_gb owner) [
      | inr refused ↦
          rw (allocate_refuses m nodes min_segment_gb new_id size_gb owner refused)
            (remove_unknown new_id m.allocations fresh)
      | inl (positive, fits) ↦
          rw (allocate-granted m nodes min_segment_gb new_id size_gb owner positive fits)
            (remove-put new_id _ m.allocations fresh)
    ]

-- In a balanced fabric an allocation under a fresh id that is released at once, granted or refused,
-- leaves the pool as it was: its statistics over any nodes are the same.
pub release-allocate :
    (m : MemoryFabric) (nodes : List Node) (min_segment_gb : ℕ) (new_id : String) (size_gb : ℕ)
    (owner : String) (shown : List Node)
    → IsBalanced m
    → get new_id m.allocations ≡ none
    → pool_stats (release new_id (allocate new_id size_gb nodes owner min_segment_gb m).1).1 shown
      ≡ pool_stats m shown
release-allocate m nodes min_segment_gb new_id size_gb owner shown b fresh =
    let given = allocate-IsBalanced m nodes min_segment_gb new_id size_gb owner fresh b in
    pool_stats_same m _ shown b (release-IsBalanced new_id _ given) (
      release_removes new_id _
      ∙ allocations_again m nodes min_segment_gb new_id size_gb owner fresh)

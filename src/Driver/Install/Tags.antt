-- ===== src/Driver/Install/Tags.antt =====
-- The tag that a merged library leaves on its node.
use cluster_mesh.Prelude.{
  String, true, false, none, some, List, [], ◌∷◌, ◌==◌, ◌≡◌, ◌∙◌, refl, subst, sym, inl, inr, All,
  Bool-cases, Option-cases, eq_iff, eq_refl,
}
use cluster_mesh.Prelude.Dict.{get, put, add, member, get-put}
use cluster_mesh.Prelude.Sort.{Has, sort_by, Has-sort_by_iff, All_at, All_of}
use cluster_mesh.Prelude.Text.{text_leb, strip}
use cluster_mesh.Prelude.Words.{split, join, IsWord, split-join, split-All, strip-IsWord}
use cluster_mesh.Models.{Node}
use cluster_mesh.Driver.Cluster.{Cluster}
use cluster_mesh.Driver.Install.{library_names, with_library, merge_library_tag, libraries_tag}

Has-member : (k : String) (s : List String) → member k s ≡ true → Has k s
unfolding member
Has-member k [] h = absurd (cc h)
Has-member k (j ∷ s) h = elim (Bool-cases (j == k)) [
  | inl e ↦ inl ((eq_iff j k).0 e)
  | inr e ↦ inr (Has-member k s (rw e at h))
]

Has-add : (k : String) (s : List String) → Has k (add k s)
unfolding add
Has-add k s = elim (Bool-cases (member k s)) [
  | inl e ↦ rw e (Has-member k s e)
  | inr e ↦ rw e (inl refl)
]

Has-add_old : (k j : String) (s : List String) → Has j s → Has j (add k s)
unfolding add
Has-add_old k j s h = elim (Bool-cases (member k s)) [ inl e ↦ rw e h | inr e ↦ rw e (inr h) ]

All-add : (P : String → Type 0) (k : String) (s : List String) → P k → All P s → All P (add k s)
unfolding add
All-add P k s p h = elim (Bool-cases (member k s)) [ inl e ↦ rw e h | inr e ↦ rw e (p, h) ]

-- Lowering a text brings no comma in.
abbrev pub KeepsWords : (String → String) → Type 0
KeepsWords lower = (s : String) → IsWord s → IsWord (lower s)

library_names-All :
    (lower : String → String) (ps : List String)
    → KeepsWords lower
    → All IsWord ps
    → All IsWord (library_names lower ps)
unfolding library_names
library_names-All lower [] keeps h = tt
library_names-All lower (p ∷ ps) keeps h =
    let rest = library_names-All lower ps keeps h.1 in
    elim (Bool-cases (strip p == "")) [
      | inl e ↦ rw e rest
      | inr e ↦
          rw e (All-add IsWord (lower (strip p)) _ (keeps (strip p) (strip-IsWord p h.0)) rest)
    ]

-- Sorted, joined and split again, a list of words keeps its words.
Has-split-join :
    (k : String) (l : List String)
    → All IsWord l
    → Has k l
    → Has k (split (join (sort_by text_leb l)))
Has-split-join k l words h =
    let sorted_words : All IsWord (sort_by text_leb l) =
      All_of IsWord (sort_by text_leb l)
        (λ w found. All_at IsWord w l words ((Has-sort_by_iff text_leb w l).0 found)) in
    let found = (Has-sort_by_iff text_leb k l).1 h in kept (sort_by text_leb l) sorted_words found
  where
    kept : (ws : List String) → All IsWord ws → Has k ws → Has k (split (join ws))
    kept [] a f = absurd f
    kept (w ∷ ws) a f = subst (λ x. Has k x) (sym (split-join w ws a)) f

-- The names that a node's tag holds.
abbrev pub tag_names : Node → List String
tag_names n = split (libraries_tag n)

with_library-names :
    (lower : String → String) (package_name : String) (n : Node)
    → KeepsWords lower
    → IsWord package_name
    → Has (lower package_name) (tag_names (with_library lower package_name n))
unfolding with_library
with_library-names lower package_name n keeps word =
    let libs = add (lower package_name) (library_names lower (split (libraries_tag n))) in
    let words : All IsWord libs =
      All-add IsWord (lower package_name) _ (keeps package_name word)
        (library_names-All lower _ keeps (split-All (libraries_tag n))) in
    let found = Has-split-join (lower package_name) libs words (Has-add (lower package_name) _) in
    let text = join (sort_by text_leb libs) in
    let stored : get "libraries" (put "libraries" text n.tags) ≡ some text =
      get-put "libraries" "libraries" text n.tags in
    subst (λ o. Has (lower package_name) (split (elim o [ none ↦ "" | some v ↦ v ]))) (sym stored)
      found

-- The node is registered and its tag holds the library.
abbrev pub IsTagged : (String → String) → String → String → Cluster → Type 0
IsTagged lower package_name id env =
    (n : Node) × (get id env.world.nodes ≡ some n) × Has (lower package_name) (tag_names n)

abbrev pub IsKnown : String → Cluster → Type 0
IsKnown id env = (n : Node) × (get id env.world.nodes ≡ some n)

module _ (lower : String → String) (package_name : String) (keeps : KeepsWords lower)
    (word : IsWord package_name) where
  pub merge-IsTagged :
      (id : String) (env : Cluster)
      → IsKnown id env
      → IsTagged lower package_name id (merge_library_tag lower id package_name env)
  unfolding merge_library_tag
  merge-IsTagged id env (n, known) =
      rw (known, merge_library_tag)
        (
          with_library lower package_name n,
          rw (get-put, eq_refl) refl,
          with_library-names lower package_name n keeps word,
        )

  -- A merge for one node leaves the others as they are.
  merge-elsewhere :
      (id j : String) (env : Cluster)
      → (j == id) ≡ false
      → get id (merge_library_tag lower j package_name env).world.nodes ≡ get id env.world.nodes
  unfolding merge_library_tag
  merge-elsewhere id j env other = elim (Option-cases (get j env.world.nodes)) [
    | inl e ↦ rw (e, merge_library_tag) refl
    | inr (n, e) ↦ rw (e, merge_library_tag) rw (get-put, other) refl
  ]

  pub merge-IsTagged_too :
      (id j : String) (env : Cluster)
      → IsTagged lower package_name id env
      → IsTagged lower package_name id (merge_library_tag lower j package_name env)
  merge-IsTagged_too id j env (n, known, tagged) = elim (Bool-cases (j == id)) [
    | inl e ↦
        subst (λ k. IsTagged lower package_name id (merge_library_tag lower k package_name env))
          (sym ((eq_iff j id).0 e)) (merge-IsTagged id env (n, known))
    | inr e ↦ (n, merge-elsewhere id j env e ∙ known, tagged)
  ]

  pub merge-IsKnown :
      (id j : String) (env : Cluster)
      → IsKnown id env
      → IsKnown id (merge_library_tag lower j package_name env)
  merge-IsKnown id j env (n, known) = elim (Bool-cases (j == id)) [
    | inl e ↦
        subst (λ k. IsKnown id (merge_library_tag lower k package_name env))
          (sym ((eq_iff j id).0 e))
          (let (n', known', tagged) = merge-IsTagged id env (n, known) in (n', known'))
    | inr e ↦ (n, merge-elsewhere id j env e ∙ known)
  ]

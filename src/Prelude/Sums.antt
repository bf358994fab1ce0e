-- ===== src/Prelude/Sums.antt =====
-- `sum_of` over filtered, mapped and sorted lists and over the values of a dictionary.
use mathlib.Core.Path.{◌≡◌, refl, ap, subst}
use mathlib.Core.Logic.{inl, inr}
use mathlib.Core.Bool.{Bool, true, false, ◌||◌, ◌&&◌, not}
use mathlib.Core.Option.{none, some}
use mathlib.Core.List.{List, [], ◌∷◌, map}
use native.Mathlib.Omega.{arith}
use Prim.Native.Nat.{ℕ, ◌+◌}
use Prim.Native.String.{String}
use text.Mathlib.Text.{◌==◌}
use text.Mathlib.TextEquality.{eq_iff}
use text.Mathlib.TextPositions.{eq_refl}
use cluster_mesh.Prelude.Tests.{if◌then◌else◌, Bool-cases}
use cluster_mesh.Prelude.Lists.{sum_of, select}
use cluster_mesh.Prelude.Dict.{Dict, get, put, remove, keys, values, member, Distinct}
use cluster_mesh.Prelude.Sort.{sort_by, insert_by, Has}

module _ {ℓ} {A : Type ℓ} (g : A → ℕ) where
  pub sum_of-select :
      (keep : A → Bool) (xs : List A)
      → sum_of g (select keep xs) ≡ sum_of (λ x. if keep x then g x else 0) xs
  unfolding sum_of select
  sum_of-select keep [] = refl
  sum_of-select keep (x ∷ xs) = ground (arith, sum_of-select keep xs)

  sum_of-insert_by :
      (leq : A → A → Bool) (x : A) (xs : List A) → sum_of g (insert_by leq x xs) ≡ g x + sum_of g xs
  unfolding sum_of insert_by
  sum_of-insert_by leq x [] = refl
  sum_of-insert_by leq x (y ∷ xs) = ground (arith, sum_of-insert_by leq x xs)

  pub sum_of-sort_by : (leq : A → A → Bool) (xs : List A) → sum_of g (sort_by leq xs) ≡ sum_of g xs
  unfolding sum_of sort_by
  sum_of-sort_by leq [] = refl
  sum_of-sort_by leq (x ∷ xs) =
      omega (arith, sum_of-insert_by leq x (sort_by leq xs), sum_of-sort_by leq xs)

pub sum_of-map {ℓ κ} :
    {A : Type ℓ} {B : Type κ} (f : B → ℕ) (h : A → B) (xs : List A)
    → sum_of f (map h xs) ≡ sum_of (λ x. f (h x)) xs
unfolding sum_of
sum_of-map f h [] = refl
sum_of-map f h (x ∷ xs) = omega (arith, sum_of-map f h xs)

module _ {ℓ} {V : Type ℓ} where
  remove_absent : (k : String) (d : Dict V) → member k (keys d) ≡ false → remove k d ≡ d
  unfolding remove keys member
  remove_absent k [] h = refl
  remove_absent k ((j, w) ∷ d) h = ground (arith, remove_absent k d)

module _ {ℓ} {V : Type ℓ} (g : V → ℕ) where
  -- A new key adds its value.
  pub sum_of-values-put :
      (k : String) (v : V) (d : Dict V)
      → get k d ≡ none
      → sum_of g (values (put k v d)) ≡ sum_of g (values d) + g v
  unfolding sum_of values put get
  sum_of-values-put k v [] h = omega arith
  sum_of-values-put k v ((j, w) ∷ d) h = ground (arith, sum_of-values-put k v d)

  -- Removing a key takes its value away.
  pub sum_of-values-remove :
      (k : String) (v : V) (d : Dict V)
      → Distinct (keys d)
      → get k d ≡ some v
      → sum_of g (values (remove k d)) + g v ≡ sum_of g (values d)
  unfolding sum_of values remove get keys
  sum_of-values-remove k v [] u h = absurd (ground arith)
  sum_of-values-remove k v ((j, w) ∷ d) u h = elim (Bool-cases (j == k)) [
    | inl hit ↦
        let same = (eq_iff j k).0 hit in
        let absent = subst (λ i. member i (keys d) ≡ false) same u.0 in
        ground (arith, remove_absent k d absent)
    | inr miss ↦ ground (arith, sum_of-values-remove k v d u.1)
  ]

module _ {ℓ} {V : Type ℓ} where
  member-keys-put :
      (k j : String) (v : V) (d : Dict V)
      → member j (keys (put k v d)) ≡ (k == j || member j (keys d))
  unfolding member keys put
  member-keys-put k j v [] = refl
  member-keys-put k j v ((i, w) ∷ d) =
      ground (arith, member-keys-put k j v d, eq_iff i k, eq_iff i j, eq_iff k j)

  member-keys-remove :
      (k j : String) (d : Dict V)
      → member j (keys (remove k d)) ≡ (not (k == j) && member j (keys d))
  unfolding member keys remove
  member-keys-remove k j [] = ground arith
  member-keys-remove k j ((i, w) ∷ d) =
      ground (arith, member-keys-remove k j d, eq_iff i k, eq_iff i j, eq_iff k j)

  pub keys-put-Distinct :
      (k : String) (v : V) (d : Dict V) → Distinct (keys d) → Distinct (keys (put k v d))
  unfolding keys put member
  keys-put-Distinct k v [] u = (refl, tt)
  keys-put-Distinct k v ((j, w) ∷ d) u = elim (Bool-cases (j == k)) [
    | inl hit ↦ rw hit u
    | inr miss ↦ rw miss (
      ground (arith, member-keys-put k j v d, eq_iff k j, eq_iff j k),
      keys-put-Distinct k v d u.1,
    )
  ]

  pub keys-remove-Distinct :
      (k : String) (d : Dict V) → Distinct (keys d) → Distinct (keys (remove k d))
  unfolding keys remove
  keys-remove-Distinct k [] u = tt
  keys-remove-Distinct k ((j, w) ∷ d) u = elim (Bool-cases (j == k)) [
    | inl hit ↦ rw hit (keys-remove-Distinct k d u.1)
    | inr miss ↦ rw miss (ground (arith, member-keys-remove k j d), keys-remove-Distinct k d u.1)
  ]

module _ {V : Type 0} where
  -- A value at a key is among the values.
  pub Has-values_of : (k : String) (v : V) (d : Dict V) → get k d ≡ some v → Has v (values d)
  unfolding get values
  Has-values_of k v [] h = absurd (cc h)
  Has-values_of k v ((j, w) ∷ d) h = elim (Bool-cases (j == k)) [
    | inl hit ↦ inl (ground (arith, h))
    | inr miss ↦ inr (Has-values_of k v d (rw miss at h))
  ]

  member-keys : (k : String) (v : V) (d : Dict V) → get k d ≡ some v → member k (keys d) ≡ true
  unfolding get keys member
  member-keys k v [] h = absurd (cc h)
  member-keys k v ((j, w) ∷ d) h = ground (arith, member-keys k v d)

  -- Every value stands at some key.
  pub Has-values :
      (v : V) (d : Dict V)
      → Distinct (keys d)
      → Has v (values d)
      → (k : String) × (get k d ≡ some v)
  unfolding get values keys
  Has-values v [] u h = elim h [ ]
  Has-values v ((j, w) ∷ d) u (inl e) = (j, rw (eq_refl j) (ap some e))
  Has-values v ((j, w) ∷ d) u (inr h) =
      let (k, found) = Has-values v d u.1 h in
      let known = member-keys k v d found in (k, ground (arith, eq_iff j k, u.0))

-- ===== src/Prelude/Sort.antt =====
-- Membership, and Python's stable `sorted(xs, key=...)` as an insertion sort by a test `leq x y`.
use mathlib.Core.Path.{◌≡◌, refl, subst, ap}
use mathlib.Core.Logic.{◌⊎◌, inl, inr, ◌↔◌}
use mathlib.Core.Bool.{Bool, true, false}
use mathlib.Core.List.{List, [], ◌∷◌, map}
use native.Mathlib.Omega.{arith}
use cluster_mesh.Prelude.Tests.{if◌then◌else◌, Bool-cases}
use cluster_mesh.Prelude.Lists.{All, select}

module _ {A : Type 0} where
  -- The element stands in the list.
  abbrev pub Has : A → List A → Type 0
  Has a [] = ⊥
  Has a (x ∷ xs) = (x ≡ a) ⊎ Has a xs

  pub All_at {κ} : (P : A → Type κ) (a : A) (xs : List A) → All P xs → Has a xs → P a
  All_at P a [] p h = elim h [ ]
  All_at P a (x ∷ xs) p (inl e) = subst P e p.0
  All_at P a (x ∷ xs) p (inr h) = All_at P a xs p.1 h

  pub All_of {κ} : (P : A → Type κ) (xs : List A) → ((a : A) → Has a xs → P a) → All P xs
  All_of P [] f = tt
  All_of P (x ∷ xs) f = (f x (inl refl), All_of P xs (λ a h. f a (inr h)))

  pub Has-select_iff :
      (keep : A → Bool) (a : A) (xs : List A)
      → Has a (select keep xs) ↔ (Has a xs × (keep a ≡ true))
  unfolding select
  Has-select_iff keep a [] = (λ h. elim h [ ], λ p. elim p.0 [ ])
  Has-select_iff keep a (x ∷ xs) = ground (arith, Has-select_iff keep a xs)

module _ {ℓ} {A : Type ℓ} (leq : A → A → Bool) where
  unfoldable pub insert_by : A → List A → List A
  insert_by x [] = x ∷ []
  insert_by x (y ∷ ys) = if leq x y then x ∷ y ∷ ys else y ∷ insert_by x ys

  unfoldable pub sort_by : List A → List A
  unfolding insert_by
  sort_by [] = []
  sort_by (x ∷ xs) = insert_by x (sort_by xs)

module _ {A : Type 0} (leq : A → A → Bool) where
  Has-insert_by_iff : (a x : A) (ys : List A) → Has a (insert_by leq x ys) ↔ ((x ≡ a) ⊎ Has a ys)
  unfolding insert_by
  Has-insert_by_iff a x [] = (λ h. h, λ h. h)
  Has-insert_by_iff a x (y ∷ ys) = ground (arith, Has-insert_by_iff a x ys)

  pub Has-sort_by_iff : (a : A) (xs : List A) → Has a (sort_by leq xs) ↔ Has a xs
  unfolding sort_by
  Has-sort_by_iff a [] = (λ h. h, λ h. h)
  Has-sort_by_iff a (x ∷ xs) =
      ground (arith, Has-insert_by_iff a x (sort_by leq xs), Has-sort_by_iff a xs)

  -- The first of `ys` is least among `xs`.
  abbrev StartsLeast : List A → List A → Type 0
  StartsLeast [] xs = xs ≡ []
  StartsLeast (y ∷ ys) xs = All (λ x. leq y x ≡ true) xs

-- The test is total and transitive.
pub record IsOrder {A : Type 0} (leq : A → A → Bool) : Type 0 where
  pub total : (x y : A) → leq x y ≡ false → leq y x ≡ true
  pub trans : (x y z : A) → leq x y ≡ true → leq y z ≡ true → leq x z ≡ true

module _ {A : Type 0} {leq : A → A → Bool} (order : IsOrder leq) where
  leq_refl : (x : A) → leq x x ≡ true
  leq_refl x = elim (Bool-cases (leq x x)) [ inl e ↦ e | inr e ↦ order.total x x e ]

  pub All_trans :
      (x y : A) (zs : List A)
      → leq x y ≡ true
      → All (λ z. leq y z ≡ true) zs
      → All (λ z. leq x z ≡ true) zs
  All_trans x y [] h a = tt
  All_trans x y (z ∷ zs) h a = (order.trans x y z h a.0, All_trans x y zs h a.1)

  insert_by_least :
      (x : A) (ys xs : List A)
      → StartsLeast leq ys xs
      → StartsLeast leq (insert_by leq x ys) (x ∷ xs)
  unfolding insert_by
  insert_by_least x [] xs h = rw h (leq_refl x, tt)
  insert_by_least x (y ∷ ys) xs h = elim (Bool-cases (leq x y)) [
    | inl first ↦ rw first (leq_refl x, All_trans x y xs first h)
    | inr later ↦ rw later (order.total x y later, h)
  ]

  sort_by-StartsLeast : (xs : List A) → StartsLeast leq (sort_by leq xs) xs
  unfolding sort_by
  sort_by-StartsLeast [] = refl
  sort_by-StartsLeast (x ∷ xs) = insert_by_least x (sort_by leq xs) xs (sort_by-StartsLeast xs)

  -- A total and transitive test puts a least element first.
  pub sort_by_least :
      (xs ys : List A) (y : A) → sort_by leq xs ≡ y ∷ ys → All (λ x. leq y x ≡ true) xs
  sort_by_least xs ys y e = subst (λ l. StartsLeast leq l xs) e (sort_by-StartsLeast xs)

module _ {A B : Type 0} (g : A → B) where
  pub Has-map : (y : B) (xs : List A) → Has y (map g xs) → (x : A) × Has x xs × (g x ≡ y)
  Has-map y [] h = elim h [ ]
  Has-map y (x ∷ xs) (inl e) = (x, inl refl, e)
  Has-map y (x ∷ xs) (inr h) = let (z, m, e) = Has-map y xs h in (z, inr m, e)

  pub Has-map_of : (x : A) (xs : List A) → Has x xs → Has (g x) (map g xs)
  Has-map_of x [] h = elim h [ ]
  Has-map_of x (z ∷ xs) (inl e) = inl (ap g e)
  Has-map_of x (z ∷ xs) (inr h) = inr (Has-map_of x xs h)

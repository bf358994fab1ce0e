-- ===== src/Prelude/Sorted.antt =====
-- What `sorted` gives is sorted.
use cluster_mesh.Prelude.Tests.{Bool-cases}
use cluster_mesh.Prelude.Lists.{All, select}
use cluster_mesh.Prelude.Sort.{IsOrder, All_trans, insert_by, sort_by, Has}
use mathlib.Core.Path.{◌≡◌, refl, ap}
use mathlib.Core.Logic.{◌⊎◌, ◌↔◌, inl, inr}
use mathlib.Core.Bool.{Bool, true}
use mathlib.Core.List.{List, [], ◌∷◌, ◌++◌}
use native.Mathlib.Omega.{arith}

module _ {A : Type 0} where
  -- Each element comes before all that follow it.
  abbrev pub Sorted : (A → A → Bool) → List A → Type 0
  Sorted leq [] = Unit
  Sorted leq (x ∷ xs) = All (λ y. leq x y ≡ true) xs × Sorted leq xs

  pub select_everything :
      (keep : A → Bool) (xs : List A) → All (λ x. keep x ≡ true) xs → select keep xs ≡ xs
  unfolding select
  select_everything keep [] h = refl
  select_everything keep (x ∷ xs) h = rw h.0 (ap (λ l. x ∷ l) (select_everything keep xs h.1))

  pub All-map {κ} : {P Q : A → Type κ} (xs : List A) → ((x : A) → P x → Q x) → All P xs → All Q xs
  All-map [] f h = tt
  All-map (x ∷ xs) f h = (f x h.0, All-map xs f h.1)

  pub Has-append_iff : (a : A) (xs ys : List A) → Has a (xs ++ ys) ↔ (Has a xs ⊎ Has a ys)
  Has-append_iff a [] ys = ground arith
  Has-append_iff a (x ∷ xs) ys = ground (arith, Has-append_iff a xs ys)

module _ {A : Type 0} (leq : A → A → Bool) where
  All-insert_by :
      (P : A → Type 0) (x : A) (ys : List A) → P x → All P ys → All P (insert_by leq x ys)
  unfolding insert_by
  All-insert_by P x [] p h = (p, tt)
  All-insert_by P x (y ∷ ys) p h = elim (Bool-cases (leq x y)) [
    | inl e ↦ rw e (p, h)
    | inr e ↦ rw e (h.0, All-insert_by P x ys p h.1)
  ]

module _ {A : Type 0} {leq : A → A → Bool} (order : IsOrder leq) where
  insert_by-Sorted : (x : A) (ys : List A) → Sorted leq ys → Sorted leq (insert_by leq x ys)
  unfolding insert_by
  insert_by-Sorted x [] s = (tt, tt)
  insert_by-Sorted x (y ∷ ys) s = elim (Bool-cases (leq x y)) [
    | inl e ↦ rw e ((e, All_trans order x y ys e s.0), s)
    | inr e ↦ rw e (
      All-insert_by leq (λ z. leq y z ≡ true) x ys (order.total x y e) s.0,
      insert_by-Sorted x ys s.1,
    )
  ]

  pub sort_by-Sorted : (xs : List A) → Sorted leq (sort_by leq xs)
  unfolding sort_by
  sort_by-Sorted [] = tt
  sort_by-Sorted (x ∷ xs) = insert_by-Sorted x (sort_by leq xs) (sort_by-Sorted xs)

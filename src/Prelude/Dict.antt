-- ===== src/Prelude/Dict.antt =====
-- Python's `dict` with text keys: an association list in insertion order, and a text set.
use mathlib.Core.Path.{◌≡◌, refl}
use mathlib.Core.Bool.{Bool, true, false, not, ◌&&◌, ◌||◌}
use mathlib.Core.Option.{Option, none, some}
use mathlib.Core.List.{List, [], ◌∷◌}
use native.Mathlib.Omega.{arith}
use Prim.Native.String.{String}
use text.Mathlib.Text.{◌==◌}
use text.Mathlib.TextEquality.{eq_iff}
use cluster_mesh.Prelude.Tests.{if◌then◌else◌}

abbrev pub Dict {ℓ} : Type ℓ → Type ℓ
Dict V = List (String × V)

module _ {ℓ} {V : Type ℓ} where
  -- `d.get(k)`
  unfoldable pub get : String → Dict V → Option V
  get k [] = none
  get k ((j, v) ∷ d) = if j == k then some v else get k d

  -- `d.get(k, default)`
  abbrev pub get_or : V → String → Dict V → V
  get_or default k d = elim (get k d) [ none ↦ default | some v ↦ v ]

  -- `k in d`
  abbrev pub has : String → Dict V → Bool
  has k d = elim (get k d) [ none ↦ false | some _ ↦ true ]

  -- `d[k] = v`: an old key keeps its place, a new one goes to the end.
  unfoldable pub put : String → V → Dict V → Dict V
  put k v [] = (k, v) ∷ []
  put k v ((j, w) ∷ d) = if j == k then (j, v) ∷ d else (j, w) ∷ put k v d

  -- `d.pop(k, None)`
  unfoldable pub remove : String → Dict V → Dict V
  remove k [] = []
  remove k ((j, w) ∷ d) = let rest = remove k d in if j == k then rest else (j, w) ∷ rest

  -- `list(d.keys())` and `list(d.values())`
  unfoldable pub keys : Dict V → List String
  keys [] = []
  keys ((j, w) ∷ d) = j ∷ keys d

  unfoldable pub values : Dict V → List V
  values [] = []
  values ((j, w) ∷ d) = w ∷ values d

  pub get-put :
      (k j : String) (v : V) (d : Dict V) → get j (put k v d) ≡ (if k == j then some v else get j d)
  unfolding get put
  get-put k j v [] = refl
  get-put k j v ((i, w) ∷ d) = ground (arith, eq_iff k j, eq_iff i k, eq_iff i j, get-put k j v d)

  pub get-remove :
      (k j : String) (d : Dict V) → get j (remove k d) ≡ (if k == j then none else get j d)
  unfolding get remove
  get-remove k j [] = ground arith
  get-remove k j ((i, w) ∷ d) = ground (arith, eq_iff k j, eq_iff i k, eq_iff i j, get-remove k j d)

-- `k in s`
unfoldable pub member : String → List String → Bool
member k [] = false
member k (j ∷ s) = j == k || member k s

-- `s.add(k)`
unfoldable pub add : String → List String → List String
add k s = if member k s then s else k ∷ s

-- `s.discard(k)`
unfoldable pub discard : String → List String → List String
discard k [] = []
discard k (j ∷ s) = let rest = discard k s in if j == k then rest else j ∷ rest

pub member-add : (k j : String) (s : List String) → member j (add k s) ≡ (k == j || member j s)
unfolding add member
member-add k j s = ground (arith, eq_iff k j)

pub member-discard :
    (k j : String) (s : List String) → member j (discard k s) ≡ (not (k == j) && member j s)
unfolding discard member
member-discard k j [] = ground arith
member-discard k j (i ∷ s) =
    ground (arith, eq_iff k j, eq_iff i k, eq_iff i j, member-discard k j s)

pub ruleset dict_laws = (get-put, get-remove, member-add, member-discard)

-- No text stands twice.
abbrev pub Distinct : List String → Type 0
Distinct [] = Unit
Distinct (k ∷ ks) = (member k ks ≡ false) × Distinct ks

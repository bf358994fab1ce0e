-- ===== src/Prelude/Words.antt =====
-- `s.split(",")` and `",".join(words)`, and that splitting a joined text gives its words back.
use Prim.Native.Char.{Char, code}
use Prim.Native.String.{String}
use mathlib.Core.Path.{◌≡◌, refl}
use mathlib.Core.Bool.{Bool, false}
use mathlib.Core.List.{List, [], ◌∷◌}
use mathlib.Core.Logic.{inl, inr}
use text.Mathlib.Text.{◌==◌}
use cluster_mesh.Prelude.Tests.{eqb, if◌then◌else◌, Bool-cases}
use cluster_mesh.Prelude.Lists.{All}
use cluster_mesh.Prelude.Text.{lstrip, rstrip, strip, is_space}

abbrev is_comma : Char → Bool
is_comma c = eqb (code c) 44

abbrev before_first : Char → List String → List String
before_first c [] = String.◌∷◌ c "" ∷ []
before_first c (w ∷ ws) = String.◌∷◌ c w ∷ ws

unfoldable pub split : String → List String
split String.[] = "" ∷ []
split (String.◌∷◌ c s) = let rest = split s in if is_comma c then "" ∷ rest else before_first c rest

abbrev onto : String → String → String
onto String.[] t = t
onto (String.◌∷◌ c s) t = String.◌∷◌ c (onto s t)

unfoldable pub join : List String → String
join [] = ""
join (w ∷ []) = w
join (w ∷ v ∷ ws) = onto w (String.◌∷◌ "," (join (v ∷ ws)))

-- A text without a comma.
abbrev pub IsWord : String → Type 0
IsWord String.[] = Unit
IsWord (String.◌∷◌ c s) = (is_comma c ≡ false) × IsWord s

split_word : (w : String) → IsWord w → split w ≡ w ∷ []
unfolding split
split_word String.[] h = refl
split_word (String.◌∷◌ c s) h = rw (h.0, split_word s h.1) refl

split-onto : (w t : String) → IsWord w → split (onto w (String.◌∷◌ "," t)) ≡ w ∷ split t
unfolding split
split-onto String.[] t h = refl
split-onto (String.◌∷◌ c s) t h = rw (h.0, split-onto s t h.1) refl

pub split-join :
    (w : String) (ws : List String) → All IsWord (w ∷ ws) → split (join (w ∷ ws)) ≡ w ∷ ws
unfolding join
split-join w [] h = split_word w h.0
split-join w (v ∷ ws) h = rw (split-onto w (join (v ∷ ws)) h.0, split-join v ws h.1) refl

before_first-All :
    (c : Char) (ws : List String)
    → is_comma c ≡ false
    → All IsWord ws
    → All IsWord (before_first c ws)
before_first-All c [] e h = ((e, tt), tt)
before_first-All c (w ∷ ws) e h = ((e, h.0), h.1)

pub split-All : (s : String) → All IsWord (split s)
unfolding split
split-All String.[] = (tt, tt)
split-All (String.◌∷◌ c s) = elim (Bool-cases (is_comma c)) [
  | inl e ↦ rw e (tt, split-All s)
  | inr e ↦ rw e (before_first-All c (split s) e (split-All s))
]

lstrip-IsWord : (s : String) → IsWord s → IsWord (lstrip s)
unfolding lstrip
lstrip-IsWord String.[] h = tt
lstrip-IsWord (String.◌∷◌ c s) h = elim (Bool-cases (is_space (code c))) [
  | inl e ↦ rw e (lstrip-IsWord s h.1)
  | inr e ↦ rw e h
]

rstrip-IsWord : (s : String) → IsWord s → IsWord (rstrip s)
unfolding rstrip
rstrip-IsWord String.[] h = tt
rstrip-IsWord (String.◌∷◌ c s) h = elim (Bool-cases (rstrip s == "")) [
  | inl e ↦ elim (Bool-cases (is_space (code c))) [
    | inl w ↦ rw (e, w) tt
    | inr w ↦ rw (e, w) (h.0, rstrip-IsWord s h.1)
  ]
  | inr e ↦ rw e (h.0, rstrip-IsWord s h.1)
]

pub strip-IsWord : (s : String) → IsWord s → IsWord (strip s)
strip-IsWord s h = rstrip-IsWord (lstrip s) (lstrip-IsWord s h)

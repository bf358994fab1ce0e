-- ===== src/Prelude/Strip.antt =====
-- Stripping a text twice.
use Prim.Native.Char.{code}
use Prim.Native.String.{String}
use mathlib.Core.Path.{◌≡◌, refl, ap, ◌∙◌}
use mathlib.Core.Logic.{inl, inr}
use text.Mathlib.Text.{◌==◌}
use cluster_mesh.Prelude.Tests.{Bool-cases}
use cluster_mesh.Prelude.Text.{lstrip, rstrip, strip, is_space}

rstrip-rstrip : (s : String) → rstrip (rstrip s) ≡ rstrip s
unfolding rstrip
rstrip-rstrip String.[] = refl
rstrip-rstrip (String.◌∷◌ c s) = elim (Bool-cases (rstrip s == "")) [
  | inl e ↦ elim (Bool-cases (is_space (code c))) [
    | inl w ↦ rw (e, w) refl
    | inr w ↦ rw (e, w) rw (rstrip-rstrip s, e, w) refl
  ]
  | inr e ↦ rw e rw (rstrip-rstrip s, e) refl
]

-- What is left does not begin with a space, and `rstrip` keeps its first character.
lstrip-rstrip-lstrip : (s : String) → lstrip (rstrip (lstrip s)) ≡ rstrip (lstrip s)
unfolding lstrip rstrip
lstrip-rstrip-lstrip String.[] = refl
lstrip-rstrip-lstrip (String.◌∷◌ c s) = elim (Bool-cases (is_space (code c))) [
  | inl w ↦ rw w (lstrip-rstrip-lstrip s)
  | inr w ↦ elim (Bool-cases (rstrip s == "")) [
    | inl e ↦ rw w rw (e, w) rw w refl
    | inr e ↦ rw w rw e rw w refl
  ]
]

pub strip-strip : (s : String) → strip (strip s) ≡ strip s
strip-strip s = ap rstrip (lstrip-rstrip-lstrip s) ∙ rstrip-rstrip (lstrip s)

-- ===== src/State/Json.antt =====
-- The JSON values of mesh/state/serialize.py, `d["key"]` and `d.get("key", default)`. A failing step
-- (KeyError, TypeError) gives `none`; a number is one of the model's quantities.
use cluster_mesh.Prelude.{
  ◌>>=◌, ℕ, String, Bool, Option, none, some, List, [], ◌∷◌, ◌&&◌, true, ◌==◌, if◌then◌else◌, ◌≡◌,
  refl,
}
use cluster_mesh.Prelude.Dict.{Dict, member}

-- The only arrays in these values are of texts.
mutual
  pub data Value : Type 0 where
    null : Value
    flag : Bool → Value
    number : ℕ → Value
    text : String → Value
    texts : List String → Value
    object : Members → Value

  pub data Members : Type 0 where
    end : Members
    entry : String → Value → Members → Members

abbrev pub members : Dict Value → Members
members [] = end
members ((k, v) ∷ d) = entry k v (members d)

-- A dictionary of texts read an object.
unfoldable pub of_texts : Dict String → Members
of_texts [] = end
of_texts ((k, s) ∷ d) = entry k (text s) (of_texts d)

abbrev pub value_at : String → Members → Option Value
value_at k end = none
value_at k (entry j v m) = if j == k then some v else value_at k m

abbrev pub as_flag : Value → Option Bool
as_flag (flag b) = some b
as_flag _ = none

abbrev pub as_number : Value → Option ℕ
as_number (number n) = some n
as_number _ = none

abbrev pub as_text : Value → Option String
as_text (text s) = some s
as_text _ = none

abbrev pub as_texts : Value → Option (List String)
as_texts (texts ss) = some ss
as_texts _ = none

abbrev pub as_object : Value → Option Members
as_object (object m) = some m
as_object _ = none

-- `dict(m)` of an object of texts.
unfoldable pub to_texts : Members → Option (Dict String)
to_texts end = some []
to_texts (entry k v m) = do s ← as_text v; d ← to_texts m; some ((k, s) ∷ d)

abbrev pub as_dict : Value → Option (Dict String)
as_dict v = do m ← as_object v; to_texts m

-- A value or None.
abbrev pub or_null {ℓ} : {A : Type ℓ} → (A → Value) → Option A → Value
or_null to_value none = null
or_null to_value (some a) = to_value a

abbrev pub nullable : {A : Type 0} → (Value → Option A) → Value → Option (Option A)
nullable read null = some none
nullable read v = do a ← read v; some (some a)

-- `d[k]`
abbrev pub required : {A : Type 0} → (Value → Option A) → String → Members → Option A
required read k m = do v ← value_at k m; read v

-- `d.get(k, default)`
abbrev pub given : {A : Type 0} → (Value → Option A) → A → String → Members → Option A
given read default k m = elim (value_at k m) [ none ↦ some default | some v ↦ read v ]

-- Every key is among these: a dataclass refuses other keyword arguments.
unfoldable pub only : List String → Members → Bool
only known end = true
only known (entry k v m) = member k known && only known m

pub to_texts-of_texts : (d : Dict String) → to_texts (of_texts d) ≡ some d
unfolding to_texts of_texts
to_texts-of_texts [] = refl
to_texts-of_texts ((k, s) ∷ d) = rw (to_texts-of_texts d)

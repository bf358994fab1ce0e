-- ===== src/Prelude/Text.antt =====
-- Python's `str`: its order, by code points from the left, and the methods that the code uses.
use Prim.Native.Char.{code}
use Prim.Native.Nat.{ℕ, zero, suc, ◌+◌, ◌-◌}
use Prim.Native.String.{String}
use mathlib.Core.List.{List, [], ◌∷◌}
use text.Mathlib.Text.{◌==◌}
use mathlib.Core.Path.{◌≡◌, refl}
use mathlib.Core.Bool.{Bool, true, false, ◌&&◌, ◌||◌}
use native.Mathlib.Omega.{arith}
use cluster_mesh.Prelude.Tests.{ltb, leb, eqb, if◌then◌else◌}

-- `s <= t`
unfoldable pub text_leb : String → String → Bool
text_leb String.[] t = true
text_leb (String.◌∷◌ c s) String.[] = false
text_leb (String.◌∷◌ c s) (String.◌∷◌ d t) =
    if ltb (code c) (code d) then true else if eqb (code c) (code d) then text_leb s t else false

pub text_leb_total : (s t : String) → text_leb s t ≡ false → text_leb t s ≡ true
unfolding text_leb
text_leb_total String.[] t h = absurd (ground arith)
text_leb_total (String.◌∷◌ c s) String.[] h = refl
text_leb_total (String.◌∷◌ c s) (String.◌∷◌ d t) h = ground (arith, text_leb_total s t)

pub text_leb_trans :
    (s t u : String) → text_leb s t ≡ true → text_leb t u ≡ true → text_leb s u ≡ true
unfolding text_leb
text_leb_trans String.[] t u h k = refl
text_leb_trans (String.◌∷◌ c s) String.[] u h k = absurd (ground arith)
text_leb_trans (String.◌∷◌ c s) (String.◌∷◌ d t) String.[] h k = absurd (ground arith)
text_leb_trans (String.◌∷◌ c s) (String.◌∷◌ d t) (String.◌∷◌ e u) h k =
    ground (arith, text_leb_trans s t u)

-- `s.lower()` as codes, exact on the letters A to Z. No other character becomes a letter of the words
-- it is compared with.
abbrev lower_code : ℕ → ℕ
lower_code c = if leb 65 c && leb c 90 then c + 32 else c

unfoldable pub lower : String → List ℕ
lower String.[] = []
lower (String.◌∷◌ c s) = lower_code (code c) ∷ lower s

-- `s.upper()` as codes, exact on the letters a to z. The dotless i and the long s, which Python turns
-- into I and S, are the only other characters that become a letter from A to Z by themselves.
abbrev upper_code : ℕ → ℕ
upper_code c =
    if leb 97 c && leb c 122 then c - 32 else if eqb c 305 then 73 else if eqb c 383 then 83 else c

unfoldable pub upper : String → List ℕ
upper String.[] = []
upper (String.◌∷◌ c s) = upper_code (code c) ∷ upper s

unfoldable pub begins : List ℕ → List ℕ → Bool
begins [] t = true
begins (c ∷ s) [] = false
begins (c ∷ s) (d ∷ t) = let rest = begins s t in eqb c d && rest

abbrev pub same_word : List ℕ → List ℕ → Bool
same_word s t = begins s t && begins t s

-- `s[n:]`
unfoldable pub drop : ℕ → String → String
drop zero s = s
drop (suc n) String.[] = ""
drop (suc n) (String.◌∷◌ c s) = drop n s

-- The characters that `str.strip` takes off.
abbrev pub is_space : ℕ → Bool
is_space c =
    (leb 9 c && leb c 13)
    || ((leb 28 c && leb c 32)
        || ((eqb c 133 || eqb c 160)
            || (eqb c 5_760
                || ((leb 8_192 c && leb c 8_202)
                    || ((eqb c 8_232 || eqb c 8_233)
                        || (eqb c 8_239 || (eqb c 8_287 || eqb c 12_288)))))))

unfoldable pub lstrip : String → String
lstrip String.[] = ""
lstrip (String.◌∷◌ c s) = let rest = lstrip s in if is_space (code c) then rest else String.◌∷◌ c s

unfoldable pub rstrip : String → String
rstrip String.[] = ""
rstrip (String.◌∷◌ c s) =
    let rest = rstrip s in if (rest == "") && is_space (code c) then "" else String.◌∷◌ c rest

unfoldable pub is_ascii : String → Bool
is_ascii String.[] = true
is_ascii (String.◌∷◌ c s) = let rest = is_ascii s in ltb (code c) 128 && rest

-- `s.strip()`
abbrev pub strip : String → String
strip s = rstrip (lstrip s)

-- `s[:n]`
unfoldable pub first_chars : ℕ → String → String
first_chars zero s = ""
first_chars (suc n) String.[] = ""
first_chars (suc n) (String.◌∷◌ c s) = String.◌∷◌ c (first_chars n s)

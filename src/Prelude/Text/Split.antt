-- ===== src/Prelude/Text/Split.antt =====
-- `strings.Split` at a comma, `strings.TrimSpace` and `strings.Trim`, on characters.
use Prim.Native.Char.{Char, code}
use Prim.Native.String
use Prim.Native.String.{String, char_at}
use mathlib.Core.Path.{◌≡◌, refl, ap, ◌∙◌}
use mathlib.Core.Bool.{Bool, ◌&&◌, ◌||◌}
use mathlib.Core.Logic.{◌≢◌, inl, inr}
use mathlib.Core.List.{List, [], ◌∷◌, ◌++◌}
use native.Mathlib.Omega.{arith}
use text.Mathlib.TextLemmas.{nil-append, cons-append}
use cqu_netprobe_gateway.Prelude.Tests.{eqb, leb, if◌then◌else◌, Bool-cases}

abbrev is_comma : Char → Bool
is_comma c = eqb (code c) 44

abbrev onto_first : Char → List String → List String
onto_first c [] = String.◌∷◌ c String.[] ∷ []
onto_first c (s ∷ ss) = String.◌∷◌ c s ∷ ss

-- `strings.Split(s, ",")`.
unfoldable pub split_comma : String → List String
split_comma String.[] = String.[] ∷ []
split_comma (String.◌∷◌ c s) =
    let rest = split_comma s in if is_comma c then String.[] ∷ rest else onto_first c rest

-- `unicode.IsSpace`.
abbrev is_space : Char → Bool
is_space c =
    let n = code c in
    (leb 9 n && leb n 13)
    || eqb n 32
    || eqb n 0x85
    || eqb n 0xa0
    || eqb n 0x1680
    || (leb 0x2000 n && leb n 0x200a)
    || eqb n 0x2028
    || eqb n 0x2029
    || eqb n 0x202f
    || eqb n 0x205f
    || eqb n 0x3000

abbrev is_bracket : Char → Bool
is_bracket c = eqb (code c) 91 || eqb (code c) 93

module _ (p : Char → Bool) where
  trim_left : String → String
  trim_left String.[] = String.[]
  trim_left (String.◌∷◌ c s) = let rest = trim_left s in if p c then rest else String.◌∷◌ c s

  abbrev drop_last : Char → String → String
  drop_last c String.[] = if p c then String.[] else String.◌∷◌ c String.[]
  drop_last c (String.◌∷◌ d s) = String.◌∷◌ c (String.◌∷◌ d s)

  trim_right : String → String
  trim_right String.[] = String.[]
  trim_right (String.◌∷◌ c s) = drop_last c (trim_right s)

-- `strings.TrimSpace`.
unfoldable pub trim_space : String → String
unfolding trim_left trim_right
trim_space s = trim_right is_space (trim_left is_space s)

-- `strings.Trim(s, "[]")`.
unfoldable pub trim_brackets : String → String
unfolding trim_left trim_right
trim_brackets s = trim_right is_bracket (trim_left is_bracket s)

abbrev is_blank : Char → Bool
is_blank c = eqb (code c) 32

-- SQLite's `TRIM(s)`, which takes away spaces only.
unfoldable pub sql_trim : String → String
unfolding trim_left trim_right
sql_trim s = trim_right is_blank (trim_left is_blank s)

split_test : split_comma "a, b,," ≡ "a" ∷ " b" ∷ "" ∷ "" ∷ []
unfolding split_comma
split_test = refl

trim_test : trim_space " \t10.0.0.1 " ≡ "10.0.0.1"
unfolding trim_space
trim_test = refl

trim_brackets_test : trim_brackets "[2001:db8::1]" ≡ "2001:db8::1"
unfolding trim_brackets
trim_brackets_test = refl

abbrev step_of : Char → List String → List String
step_of c rest = if is_comma c then String.[] ∷ rest else onto_first c rest

step_of-append : (c : Char) (a b : List String) → a ≢ [] → step_of c (a ++ b) ≡ step_of c a ++ b
step_of-append c [] b ne = absurd (ne refl)
step_of-append c (x ∷ a) b ne = elim (Bool-cases (is_comma c)) [
  | inl e ↦ rw e refl
  | inr e ↦ rw e refl
]

split_comma-nonempty : (s : String) → split_comma s ≢ []
unfolding split_comma
split_comma-nonempty String.[] = ground arith
split_comma-nonempty (String.◌∷◌ c s) = step_nonempty (split_comma s)
  where
    step_nonempty : (rest : List String) → step_of c rest ≢ []
    step_nonempty [] = ground arith
    step_nonempty (x ∷ rest) = ground arith

-- A comma between two texts splits them.
pub split_comma-append :
    (s t : String)
    → split_comma (String.◌++◌ s (String.◌∷◌ (char_at "," 0) t)) ≡ split_comma s ++ split_comma t
unfolding split_comma
split_comma-append String.[] t = ap split_comma (nil-append (String.◌∷◌ (char_at "," 0) t))
split_comma-append (String.◌∷◌ c s) t =
    ap split_comma (cons-append c s (String.◌∷◌ (char_at "," 0) t))
    ∙ ap (step_of c) (split_comma-append s t)
    ∙ step_of-append c (split_comma s) (split_comma t) (split_comma-nonempty s)

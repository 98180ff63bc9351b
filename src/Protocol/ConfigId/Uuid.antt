-- ===== src/Protocol/ConfigId/Uuid.antt =====
-- The printed form of the 16 bytes.
use Prim.Native.Char.{code}
use text.Mathlib.TextLemmas.{head-eq_of_cons-eq, tail-eq_of_cons-eq}
use cqu_netprobe_gateway.Prelude.{
  ℕ, suc, ◌-◌, ◌/◌, ◌%◌, ◌<◌, String, true, List, [], ◌∷◌, ◌≡◌, refl, ap, ap₂, arith, All, length,
  inl, inr, ltb, eqb, eqb_iff, if◌then◌else◌, Bool-cases, all_below, all_below_sound,
}
use cqu_netprobe_gateway.Protocol.ConfigId.{hex_digit, dash_before, format_from, format_uuid}

-- The value of a digit's code.
digit_value : ℕ → ℕ
digit_value c = if ltb c 58 then c - 48 else c - 87

hex_table : all_below 16 (λ n. eqb (digit_value (code (hex_digit n))) n) ≡ true
unfolding digit_value hex_digit
hex_table = refl

hex_value : (n : ℕ) → n < 16 → digit_value (code (hex_digit n)) ≡ n
hex_value n h =
    (eqb_iff _ n).0
      (all_below_sound 16 (λ n. eqb (digit_value (code (hex_digit n))) n) n hex_table h)

hex_digit_inj : (m n : ℕ) → m < 16 → n < 16 → hex_digit m ≡ hex_digit n → m ≡ n
hex_digit_inj m n h k e =
    omega (arith, ap (λ c. digit_value (code c)) e, hex_value m h, hex_value n k)

abbrev pub AreBytes : List ℕ → Type 0
AreBytes = All (λ b. b < 256)

digits_inj :
    (x y : ℕ) (s t : String)
    → x < 256
    → y < 256
    → String.◌∷◌ (hex_digit (x / 16)) (String.◌∷◌ (hex_digit (x % 16)) s)
      ≡ String.◌∷◌ (hex_digit (y / 16)) (String.◌∷◌ (hex_digit (y % 16)) t)
    → (x ≡ y) × (s ≡ t)
digits_inj x y s t h k e =
    let rest = tail-eq_of_cons-eq e in
    let hi = hex_digit_inj (x / 16) (y / 16) (omega arith) (omega arith) (head-eq_of_cons-eq e) in
    let lo =
      hex_digit_inj (x % 16) (y % 16) (omega arith) (omega arith) (head-eq_of_cons-eq rest) in
    (omega arith, tail-eq_of_cons-eq rest)

format_from_inj :
    (i : ℕ) (a b : List ℕ)
    → AreBytes a
    → AreBytes b
    → length a ≡ length b
    → format_from i a ≡ format_from i b
    → a ≡ b
unfolding format_from
format_from_inj i [] [] h k l e = refl
format_from_inj i [] (y ∷ b) h k l e = absurd (omega arith)
format_from_inj i (x ∷ a) [] h k l e = absurd (omega arith)
format_from_inj i (x ∷ a) (y ∷ b) h k l e = elim (Bool-cases (dash_before i)) [
  | inl dash ↦
      let (same, rest) =
        digits_inj x y _ _ h.0 k.0 (tail-eq_of_cons-eq (rw (dash, format_from) at e)) in
      ap₂ ◌∷◌ same (format_from_inj (suc i) a b h.1 k.1 (omega arith) rest)
  | inr plain ↦
      let (same, rest) = digits_inj x y _ _ h.0 k.0 (rw (plain, format_from) at e) in
      ap₂ ◌∷◌ same (format_from_inj (suc i) a b h.1 k.1 (omega arith) rest)
]

-- Two arrays of 16 bytes with the same printed form are one.
pub format_uuid_inj :
    (a b : List ℕ)
    → AreBytes a
    → AreBytes b
    → length a ≡ 16
    → length b ≡ 16
    → format_uuid a ≡ format_uuid b
    → a ≡ b
unfolding format_uuid
format_uuid_inj a b h k la lb e = format_from_inj 0 a b h k (omega arith) e

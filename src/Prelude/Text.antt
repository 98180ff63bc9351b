-- ===== src/Prelude/Text.antt =====
-- The order of texts that `sort.Strings` and SQLite's ORDER BY use: bytewise, which on UTF-8 is the
-- order of the characters' numbers.
pub mod Split
use Prim.Native.Nat.compare as compare_ℕ
use Prim.Native.Nat.{ℕ, zero, suc, Ordering, compare as compare_ℕ}
use Prim.Native.Char.{code}
use Prim.Native.String.{String, [], ◌∷◌, compare, then}
use Prim.Native.String.compare
use mathlib.Core.Path.{◌≡◌, refl}
use mathlib.Core.Logic.{◌≢◌, ◌⊎◌, inl, inr}
use mathlib.Core.Bool.{Bool, true, false}
use native.Mathlib.Omega.{arith}
use text.Mathlib.Text.{◌==◌}
use text.Mathlib.TextEquality.{path_by_compare, eq_iff}
use text.Mathlib.TextPositions.{compare_refl}

abbrev not_gt : Ordering → Bool
not_gt Ordering.gt = false
not_gt _ = true

unfoldable pub text_le : String → String → Bool
text_le s t = not_gt (compare s t)

pub text_le_refl : (s : String) → text_le s s ≡ true
unfolding text_le
text_le_refl s = rw (compare_refl s, text_le)

-- The order is total and antisymmetric: what the two answers of `compare` are, whatever the texts.
data Flips : Ordering → Ordering → Type 0 where
  lt_gt : Flips Ordering.lt Ordering.gt
  eq_eq : Flips Ordering.eq Ordering.eq
  gt_lt : Flips Ordering.gt Ordering.lt

Flips-ℕ : (m n : ℕ) → Flips (compare_ℕ m n) (compare_ℕ n m)
Flips-ℕ zero zero = rw compare_ℕ.zero-zero eq_eq
Flips-ℕ zero (suc n) = rw (compare_ℕ.zero-suc n, compare_ℕ.suc-zero n) lt_gt
Flips-ℕ (suc m) zero = rw (compare_ℕ.zero-suc m, compare_ℕ.suc-zero m) gt_lt
Flips-ℕ (suc m) (suc n) = rw (compare_ℕ.suc-suc m n, compare_ℕ.suc-suc n m) (Flips-ℕ m n)

Flips-then : {o o' p p' : Ordering} → Flips o o' → Flips p p' → Flips (then o p) (then o' p')
Flips-then lt_gt q = lt_gt
Flips-then eq_eq q = q
Flips-then gt_lt q = gt_lt

Flips-text : (s t : String) → Flips (compare s t) (compare t s)
Flips-text [] [] = rw compare.nil-nil eq_eq
Flips-text [] (d ∷ t) = rw (compare.nil-cons d t, compare.cons-nil d t) lt_gt
Flips-text (c ∷ s) [] = rw (compare.nil-cons c s, compare.cons-nil c s) gt_lt
Flips-text (c ∷ s) (d ∷ t) =
    rw (compare.cons-cons c d s t, compare.cons-cons d c t s)
      (Flips-then (Flips-ℕ (code c) (code d)) (Flips-text s t))

trans_then :
    (a b c : ℕ) (o p q : Ordering)
    → (not_gt o ≡ true → not_gt p ≡ true → not_gt q ≡ true)
    → not_gt (then (compare_ℕ a b) o) ≡ true
    → not_gt (then (compare_ℕ b c) p) ≡ true
    → not_gt (then (compare_ℕ a c) q) ≡ true
trans_then a b c o p q ih h k = ground arith

absurd_le {ℓ} : {A : Type ℓ} → false ≡ true → A
absurd_le h = cc

pub text_le_trans : (s t u : String) → text_le s t ≡ true → text_le t u ≡ true → text_le s u ≡ true
unfolding text_le
text_le_trans [] t [] h k = refl
text_le_trans [] t (e ∷ u) h k = rw (compare.nil-cons e u)
text_le_trans (c ∷ s) [] u h k = absurd_le (rw (compare.cons-nil c s) at h)
text_le_trans (c ∷ s) (d ∷ t) [] h k = absurd_le (rw (compare.cons-nil d t) at k)
text_le_trans (c ∷ s) (d ∷ t) (e ∷ u) h k = rw (compare.cons-cons c e s u) (
    trans_then (code c) (code d) (code e) (compare s t) (compare t u) (compare s u)
      (text_le_trans s t u) (rw (compare.cons-cons c d s t) at h)
      (rw (compare.cons-cons d e t u) at k))

total-Flips : {o p : Ordering} → Flips o p → (not_gt o ≡ true) ⊎ (not_gt p ≡ true)
total-Flips lt_gt = inl refl
total-Flips eq_eq = inl refl
total-Flips gt_lt = inr refl

pub text_le_total : (s t : String) → (text_le s t ≡ true) ⊎ (text_le t s ≡ true)
unfolding text_le
text_le_total s t = total-Flips (Flips-text s t)

antisymm-Flips : {o p : Ordering} → Flips o p → not_gt o ≡ true → not_gt p ≡ true → o ≡ Ordering.eq
antisymm-Flips lt_gt h k = cc
antisymm-Flips eq_eq h k = refl
antisymm-Flips gt_lt h k = cc

pub text_le_antisymm : (s t : String) → text_le s t ≡ true → text_le t s ≡ true → s ≡ t
unfolding text_le
text_le_antisymm s t h k = path_by_compare s t (antisymm-Flips (Flips-text s t) h k)

-- The test decides what is told apart.
pub text_ne : (a b : String) → (a == b) ≡ false → a ≢ b
text_ne a b h = ground (arith, eq_iff a b)

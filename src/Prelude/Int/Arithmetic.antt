-- ===== src/Prelude/Int/Arithmetic.antt =====
-- `int` arithmetic on values that are not negative, within the 64-bit range and past it.
use cqu_netprobe_gateway.Prelude.Int.{
  pos, ◌+i◌, ◌-i◌, ◌*i◌, ◌+ℤ◌, ◌-ℤ◌, ◌*ℤ◌, wrap64, wrap64_small, two_63, two_64,
}
use Prim.Native.Nat.{ℕ, suc, ◌+◌, ◌*◌, ◌%◌, ◌<◌}
use mathlib.Core.Path.{◌≡◌, ap, ◌∙◌}
use native.Mathlib.Omega.{arith}

pos-+ℤ : (a b : ℕ) → pos a +ℤ pos b ≡ pos (a + b)
unfolding ◌+ℤ◌
pos-+ℤ a b = ground arith

pos-*ℤ : (a b : ℕ) → pos a *ℤ pos b ≡ pos (a * b)
unfolding ◌*ℤ◌
pos-*ℤ a b = ground arith

suc-sub_one : (n : ℕ) → pos (suc n) -ℤ pos 1 ≡ pos n
unfolding ◌-ℤ◌
suc-sub_one n = ground arith

pub +i_small : (a b : ℕ) → a + b < two_63 → pos a +i pos b ≡ pos (a + b)
unfolding ◌+i◌
+i_small a b h = ap wrap64 (pos-+ℤ a b) ∙ wrap64_small (a + b) h

pub *i_small : (a b : ℕ) → a * b < two_63 → pos a *i pos b ≡ pos (a * b)
unfolding ◌*i◌
*i_small a b h = ap wrap64 (pos-*ℤ a b) ∙ wrap64_small (a * b) h

pub -i_one : (n : ℕ) → n < two_63 → pos (suc n) -i pos 1 ≡ pos n
unfolding ◌-i◌
-i_one n h = ap wrap64 (suc-sub_one n) ∙ wrap64_small n h

wrap64_zero : (n : ℕ) → n % two_64 ≡ 0 → wrap64 (pos n) ≡ pos 0
unfolding wrap64
wrap64_zero n h = ground arith

-- A product that is a multiple of 2^64 is 0.
pub *i_overflow : (a b : ℕ) → (a * b) % two_64 ≡ 0 → pos a *i pos b ≡ pos 0
unfolding ◌*i◌
*i_overflow a b h = ap wrap64 (pos-*ℤ a b) ∙ wrap64_zero (a * b) h

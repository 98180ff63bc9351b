-- ===== src/Float64/Order.antt =====
-- The order of the floats, where neither side is NaN.
use cqu_netprobe_gateway.Prelude.{true, false, ◌≡◌, ◌↔◌, arith}
use cqu_netprobe_gateway.Float64.{Float64, fin, less, less_eq, same, is_nan, is_inf}

abbrev pub IsFinite : Float64 → Type 0
IsFinite x = (is_nan x ≡ false) × (is_inf x ≡ false)

-- "Not greater" is "at most" between finite values; with a NaN both tests fail.
pub less_eq_iff :
    (a b : Float64) → IsFinite a → IsFinite b → (less_eq a b ≡ true) ↔ (less b a ≡ false)
unfolding less less_eq same is_nan is_inf
less_eq_iff (fin true m) (fin true n) h k = ground arith
less_eq_iff (fin true m) (fin false n) h k = ground arith
less_eq_iff (fin false m) (fin true n) h k = ground arith
less_eq_iff (fin false m) (fin false n) h k = ground arith
less_eq_iff a b h k = ground arith

pub less_eq_trans : (a b c : Float64) → less_eq a b ≡ true → less_eq b c ≡ true → less_eq a c ≡ true
unfolding less less_eq same
less_eq_trans (fin s l) (fin t m) (fin u n) h k = ground arith
less_eq_trans a b c h k = ground arith

-- ===== src/Float64.antt =====
-- Go's float64, exactly: a finite value is a whole number of units of 2^-1074, the smallest
-- subnormal, and each operation rounds to the nearest representable value, ties to even.
pub mod Order
use cqu_netprobe_gateway.Prelude.{
  ℕ, zero, suc, ◌+◌, ◌-◌, ◌*◌, ◌/◌, ◌%◌, ◌^◌, Bool, true, false, not, ◌&&◌, ◌||◌, ltb, leb, eqb,
  if◌then◌else◌, ◌≡◌, refl,
}
use cqu_netprobe_gateway.Prelude.Int.{ℤ, pos, negsuc}

-- `fin neg n` is n · 2^-1074, negative if `neg`; `fin true 0` is the negative zero.
pub data Float64 : Type 0 where
  nan : Float64
  inf : Bool → Float64
  fin : Bool → ℕ → Float64

-- The magnitudes with their sign, so that an order between two values is one between sums.
abbrev pub up : Bool → ℕ → ℕ
up true n = 0
up false n = n

abbrev pub down : Bool → ℕ → ℕ
down true n = n
down false n = 0

-- `a < b`: false when either is not a number.
unfoldable pub less : Float64 → Float64 → Bool
less nan b = false
less (inf s) nan = false
less (fin s m) nan = false
less (inf s) (inf t) = s && not t
less (inf s) (fin t n) = s
less (fin s m) (inf t) = not t
less (fin s m) (fin t n) = ltb (up s m + down t n) (up t n + down s m)

-- `a == b`.
unfoldable pub same : Float64 → Float64 → Bool
same nan b = false
same (inf s) nan = false
same (fin s m) nan = false
same (inf s) (inf t) = (s && t) || (not s && not t)
same (inf s) (fin t n) = false
same (fin s m) (inf t) = false
same (fin s m) (fin t n) = eqb (up s m + down t n) (up t n + down s m)

-- `a <= b`.
unfoldable pub less_eq : Float64 → Float64 → Bool
unfolding less same
less_eq a b = less a b || same a b

unfoldable pub is_nan : Float64 → Bool
is_nan nan = true
is_nan (inf s) = false
is_nan (fin s n) = false

unfoldable pub is_inf : Float64 → Bool
is_inf nan = false
is_inf (inf s) = true
is_inf (fin s n) = false

unfoldable pub abs : Float64 → Float64
abs nan = nan
abs (inf s) = inf false
abs (fin s n) = fin false n

abbrev pub zero_f : Float64
zero_f = fin false 0

-- 1.0, in units.
unit : ℕ
unit = 2 ^ 1074

-- 2^1024, in units: what rounds to this or more is infinite.
overflow : ℕ
overflow = 2 ^ 2098

-- How many halvings bring a number under 2^53, the precision; the fuel is spent one per halving.
excess_bits : ℕ → ℕ → ℕ
excess_bits zero n = 0
excess_bits (suc fuel) n =
    let more = suc (excess_bits fuel (n / 2)) in if ltb n (2 ^ 53) then 0 else more

-- num / den to the nearest whole number, ties to even.
nearest : ℕ → ℕ → ℕ
nearest num den =
    let q = num / den in
    let r = num % den in if ltb (2 * r) den then q else if ltb den (2 * r) then q + 1 else q + q % 2

-- Twice the bits of the largest finite value in units: more than any quotient below has.
abbrev max_bits : ℕ
max_bits = 4200

-- The float nearest to num / den units.
round : Bool → ℕ → ℕ → Float64
unfolding excess_bits nearest overflow
round s num den =
    let step = 2 ^ excess_bits max_bits (num / den) in
    let n = nearest num (den * step) * step in if ltb n overflow then fin s n else inf s

-- A decimal literal or constant, num / den.
unfoldable pub of_ratio : ℕ → ℕ → Float64
unfolding round unit
of_ratio num den = round false (num * unit) den

-- `float64(n)`.
unfoldable pub of_int : ℤ → Float64
unfolding round unit
of_int (pos n) = round false (n * unit) 1
of_int (negsuc n) = round true (suc n * unit) 1

abbrev differ : Bool → Bool → Bool
differ true t = not t
differ false t = t

-- `a / b`.
infixl 70 ◌/f◌
unfoldable pub ◌/f◌ : Float64 → Float64 → Float64
unfolding round unit
nan /f b = nan
inf s /f nan = nan
fin s m /f nan = nan
inf s /f inf t = nan
inf s /f fin t n = inf (differ s t)
fin s m /f inf t = fin (differ s t) 0
fin s m /f fin t n =
    let quotient = round (differ s t) (m * unit) n in
    if eqb n 0 then (if eqb m 0 then nan else inf (differ s t)) else quotient

-- `a - b` on finite values: the exact difference of the units, rounded.
difference : Bool → ℕ → Bool → ℕ → Float64
unfolding round
difference s m t n =
    let over = up s m + down t n in
    let under = up t n + down s m in
    if ltb under over
    then round false (over - under) 1
    else if ltb over under
    then round true (under - over) 1
    else fin (s && not t) 0

infixl 65 ◌-f◌
unfoldable pub ◌-f◌ : Float64 → Float64 → Float64
unfolding difference
nan -f b = nan
inf s -f nan = nan
fin s m -f nan = nan
inf s -f inf t = if differ s t then inf s else nan
inf s -f fin t n = inf s
fin s m -f inf t = inf (not t)
fin s m -f fin t n = difference s m t n

one_third :
    less (abs (of_ratio 333 1000 -f of_int (pos 1) /f of_int (pos 3))) (of_ratio 1 1000) ≡ true
unfolding of_ratio of_int ◌-f◌ ◌/f◌ less abs
one_third = refl

-- ===== src/Protocol/Measurement/Duration.antt =====
-- What every measurement asks of a time that it carries.
use cqu_netprobe_gateway.Prelude.{true, false, Option, none, some, ◌≡◌, ◌↔◌, refl, arith}
use cqu_netprobe_gateway.Float64.{Float64, less, less_eq, zero_f, is_nan, is_inf}
use cqu_netprobe_gateway.Float64.Order.{IsFinite, less_eq_iff}
use cqu_netprobe_gateway.Protocol.Measurement.{finite}

-- A finite number that is not negative.
abbrev pub IsDuration : Float64 → Type 0
IsDuration d = IsFinite d × (less_eq zero_f d ≡ true)

abbrev pub IsDurationOrNull : Option Float64 → Type 0
IsDurationOrNull none = Unit
IsDurationOrNull (some d) = IsDuration d

zero-IsFinite : IsFinite zero_f
unfolding is_nan is_inf
zero-IsFinite = (refl, refl)

pub finite_iff : (d : Float64) → (finite d ≡ true) ↔ IsFinite d
unfolding finite
finite_iff d = ground arith

pub nonneg_iff : (d : Float64) → IsFinite d → (less_eq zero_f d ≡ true) ↔ (less d zero_f ≡ false)
nonneg_iff d h = less_eq_iff zero_f d zero-IsFinite h

-- ===== src/Prelude/Time.antt =====
-- `time.Time` and `time.Duration`: nanoseconds since the zero time, without an upper bound.
use Prim.Native.Nat.{ℕ, ◌+◌, ◌-◌, ◌*◌, ◌/◌}
use mathlib.Core.Bool.{Bool}
use cqu_netprobe_gateway.Prelude.Tests.{ltb, eqb}

abbrev pub Time : Type 0
Time = ℕ

abbrev pub Duration : Type 0
Duration = ℕ

-- `t.After(u)`.
abbrev pub after : Time → Time → Bool
after t u = ltb u t

-- `t.Before(u)`.
abbrev pub before : Time → Time → Bool
before t u = ltb t u

-- `time.Second`.
abbrev pub second : Duration
second = 1000000000

abbrev pub minute : Duration
minute = 60 * second

-- 1970-01-01 on this scale.
abbrev pub unix_epoch : Time
unix_epoch = 62135596800 * second

-- `t.Unix()` of a time from 1970 on.
abbrev pub unix : Time → ℕ
unix t = (t - unix_epoch) / second

-- `time.Unix(sec, 0)`.
abbrev pub from_unix : ℕ → Time
from_unix sec = unix_epoch + sec * second

-- `t.IsZero()`.
abbrev pub is_zero : Time → Bool
is_zero t = eqb t 0

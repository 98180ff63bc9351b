-- ===== src/Protocol/Measurement/Icmp.antt =====
-- Which ICMP measurements the gateway accepts, stated without the code's order of tests.
use cqu_netprobe_gateway.Prelude.{
  true, false, Option, none, some, ◌≡◌, ◌↔◌, ◌⊎◌, inl, inr, refl, arith,
}
use cqu_netprobe_gateway.Prelude.Int.{pos, ◌≤ℤ◌, ◌<ℤ◌}
use cqu_netprobe_gateway.Float64.{Float64, less, less_eq, abs, zero_f, is_nan, is_inf, ◌-f◌}
use cqu_netprobe_gateway.Float64.Order.{IsFinite, less_eq_iff}
use cqu_netprobe_gateway.Protocol.Types.{IcmpResult}
use cqu_netprobe_gateway.Protocol.Measurement.Duration.{
  IsDuration, IsDurationOrNull, finite_iff, nonneg_iff,
}
use cqu_netprobe_gateway.Protocol.Measurement.{
  loss_ratio_tolerance, total_loss_tolerance, one_f, expected_loss, validate_jitter, validate_rtt,
  validate_replies, validate_icmp,
}

-- All three times are there and ordered, and the jitter is null or a duration.
pub record IsTimed (m : IcmpResult) : Type 0 where
  pub lo : Float64
  pub avg : Float64
  pub hi : Float64
  pub lo_set : m.min_rtt_ms ≡ some lo
  pub avg_set : m.avg_rtt_ms ≡ some avg
  pub hi_set : m.max_rtt_ms ≡ some hi
  pub lo_ok : IsDuration lo
  pub avg_ok : IsDuration avg
  pub hi_ok : IsDuration hi
  pub lo_le_avg : less_eq lo avg ≡ true
  pub avg_le_hi : less_eq avg hi ≡ true
  pub jitter_ok : IsDurationOrNull m.jitter_ms

-- Nothing came back: a failure with no time at all.
abbrev pub IsLost : IcmpResult → Type 0
IsLost m =
    (m.received ≡ pos 0)
    × (m.success ≡ false)
    × (m.min_rtt_ms ≡ none)
    × (m.avg_rtt_ms ≡ none)
    × (m.max_rtt_ms ≡ none)
    × (m.jitter_ms ≡ none)

-- The rules that the code has for a round.
pub record IsValidIcmp (m : IcmpResult) : Type 0 where
  pub sent_pos : pos 0 <ℤ m.sent
  pub received_nonneg : pos 0 ≤ℤ m.received
  pub received_le_sent : m.received ≤ℤ m.sent
  pub loss_finite : IsFinite m.loss_ratio
  pub loss_nonneg : less_eq zero_f m.loss_ratio ≡ true
  pub loss_le_one : less_eq m.loss_ratio one_f ≡ true
  pub loss_matches :
      less loss_ratio_tolerance (abs (m.loss_ratio -f expected_loss m.sent m.received)) ≡ false
  pub total_loss :
      (less_eq (abs (m.loss_ratio -f one_f)) total_loss_tolerance ≡ false) ⊎ (m.received ≡ pos 0)
  pub replies : IsLost m ⊎ ((pos 0 <ℤ m.received) × (m.success ≡ true) × IsTimed m)

one-IsFinite : IsFinite one_f
unfolding one_f is_nan is_inf
one-IsFinite = (refl, refl)

validate_jitter_iff : (o : Option Float64) → (validate_jitter o ≡ none) ↔ IsDurationOrNull o
unfolding validate_jitter
validate_jitter_iff none = ground arith
validate_jitter_iff (some d) = ground (arith, finite_iff d, nonneg_iff d)

-- The three times, taken apart.
abbrev AreTimes : Option Float64 → Option Float64 → Option Float64 → Option Float64 → Type 0
AreTimes (some lo) (some avg) (some hi) j =
    IsDuration lo
    × IsDuration avg
    × IsDuration hi
    × (less_eq lo avg ≡ true)
    × (less_eq avg hi ≡ true)
    × IsDurationOrNull j
AreTimes _ _ _ j = ⊥

validate_rtt_iff :
    (lo avg hi j : Option Float64) → (validate_rtt lo avg hi j ≡ none) ↔ AreTimes lo avg hi j
unfolding validate_rtt
validate_rtt_iff (some lo) (some avg) (some hi) j = ground (
  arith,
  finite_iff lo,
  finite_iff avg,
  finite_iff hi,
  nonneg_iff lo,
  nonneg_iff avg,
  nonneg_iff hi,
  less_eq_iff lo avg,
  less_eq_iff avg hi,
  validate_jitter_iff j,
)
validate_rtt_iff lo avg hi j = ground arith

IsTimed-of_AreTimes :
    (m : IcmpResult) → AreTimes m.min_rtt_ms m.avg_rtt_ms m.max_rtt_ms m.jitter_ms → IsTimed m
IsTimed-of_AreTimes m h = from_parts m.min_rtt_ms m.avg_rtt_ms m.max_rtt_ms refl refl refl h
  where
    from_parts :
        (lo avg hi : Option Float64)
        → m.min_rtt_ms ≡ lo
        → m.avg_rtt_ms ≡ avg
        → m.max_rtt_ms ≡ hi
        → AreTimes lo avg hi m.jitter_ms
        → IsTimed m
    from_parts (some lo) (some avg) (some hi) p q r (a, b, c, d, e, j) = record {
      lo = lo;
      avg = avg;
      hi = hi;
      lo_set = p;
      avg_set = q;
      hi_set = r;
      lo_ok = a;
      avg_ok = b;
      hi_ok = c;
      lo_le_avg = d;
      avg_le_hi = e;
      jitter_ok = j;
    }
    from_parts _ _ _ p q r h = absurd h

AreTimes-of_IsTimed :
    (m : IcmpResult) → IsTimed m → AreTimes m.min_rtt_ms m.avg_rtt_ms m.max_rtt_ms m.jitter_ms
AreTimes-of_IsTimed m t =
    rw (t.lo_set, t.avg_set, t.hi_set)
      (t.lo_ok, t.avg_ok, t.hi_ok, t.lo_le_avg, t.avg_le_hi, t.jitter_ok)

abbrev HasReplies : IcmpResult → Type 0
HasReplies m = IsLost m ⊎ ((pos 0 <ℤ m.received) × (m.success ≡ true) × IsTimed m)

validate_replies_sound :
    (m : IcmpResult) → pos 0 ≤ℤ m.received → validate_replies m ≡ none → HasReplies m
unfolding validate_replies
validate_replies_sound m h e = ground (
  arith,
  validate_rtt_iff m.min_rtt_ms m.avg_rtt_ms m.max_rtt_ms m.jitter_ms,
  IsTimed-of_AreTimes m,
)

validate_replies_complete : (m : IcmpResult) → HasReplies m → validate_replies m ≡ none
unfolding validate_replies
validate_replies_complete m (inl (a, b, c, d, e, f)) = rw (a, b, c, d, e, f)
validate_replies_complete m (inr (h, s, t)) = ground (
  arith,
  validate_rtt_iff m.min_rtt_ms m.avg_rtt_ms m.max_rtt_ms m.jitter_ms,
  AreTimes-of_IsTimed m t,
)

validate_icmp_sound : (m : IcmpResult) → validate_icmp m ≡ none → IsValidIcmp m
unfolding validate_icmp
validate_icmp_sound m e = ground (
  arith,
  validate_replies_sound m,
  finite_iff m.loss_ratio,
  nonneg_iff m.loss_ratio,
  less_eq_iff m.loss_ratio one_f,
  one-IsFinite,
)

validate_icmp_complete : (m : IcmpResult) → IsValidIcmp m → validate_icmp m ≡ none
unfolding validate_icmp
validate_icmp_complete m v = ground (
  arith,
  validate_replies_complete m v.replies,
  finite_iff m.loss_ratio,
  nonneg_iff m.loss_ratio,
  less_eq_iff m.loss_ratio one_f,
  one-IsFinite,
)

-- `validateICMP` accepts exactly the rounds that keep the rules listed in `IsValidIcmp`: at least one
-- request and no more replies than requests, a loss ratio that is the share of lost requests up to
-- 0.001 and, up to 0.000001, is 1 only when nothing came back, success with three ordered times or
-- failure with none, and a jitter that is null or a duration. This is wider than Protocol v1, which
-- has the exact ratio (§7) and a null jitter with fewer than two replies (§9).
pub validate_icmp_iff : (m : IcmpResult) → (validate_icmp m ≡ none) ↔ IsValidIcmp m
validate_icmp_iff m = (validate_icmp_sound m, validate_icmp_complete m)

-- ===== src/Protocol/Measurement.antt =====
-- internal/protocol/validate.go: the rules on one measurement. `none` is Go's nil error.
pub mod Duration
pub mod Icmp
pub mod Http
pub mod Codes
use cqu_netprobe_gateway.Prelude.{
  String, Bool, true, false, not, ◌&&◌, ◌||◌, Option, none, some, ◌==◌, if◌then◌else◌,
}
use cqu_netprobe_gateway.Prelude.Int.{ℤ, pos, ltb_ℤ, leb_ℤ, eqb_ℤ, ◌-i◌}
use cqu_netprobe_gateway.Float64.{
  Float64, less, less_eq, is_nan, is_inf, abs, zero_f, of_ratio, of_int, ◌/f◌, ◌-f◌,
}
use cqu_netprobe_gateway.Protocol.Errors.{Error, new_error, invalid_payload, invalid_probe_type}
use cqu_netprobe_gateway.Protocol.Types.{
  ProbeType, probe_icmp, probe_dns, probe_http, IcmpResult, DnsResult, HttpResult, Measurement,
}

abbrev payload_error : String → Option Error
payload_error m = some (new_error invalid_payload m)

unfoldable pub finite : Float64 → Bool
unfolding is_nan is_inf
finite v = not (is_nan v) && not (is_inf v)

unfoldable pub loss_ratio_tolerance : Float64
unfolding of_ratio
loss_ratio_tolerance = of_ratio 1 1000

-- 1e-6, how near to 1 a loss ratio counts as total loss.
unfoldable pub total_loss_tolerance : Float64
unfolding of_ratio
total_loss_tolerance = of_ratio 1 1000000

unfoldable pub one_f : Float64
unfolding of_int
one_f = of_int (pos 1)

abbrev is_set : Option Float64 → Bool
is_set none = false
is_set (some v) = true

-- The share of requests without a reply.
unfoldable pub expected_loss : ℤ → ℤ → Float64
unfolding of_int ◌/f◌ ◌-i◌
expected_loss sent received = of_int (sent -i received) /f of_int sent

validate_jitter : Option Float64 → Option Error
validate_jitter none = none
validate_jitter (some j) =
    if not (finite j)
    then payload_error "icmp jitter must be a finite number"
    else if less j zero_f
    then payload_error "icmp jitter must not be negative"
    else none

-- The checks on the round-trip times once a reply was received.
validate_rtt : Option Float64 → Option Float64 → Option Float64 → Option Float64 → Option Error
unfolding validate_jitter
validate_rtt (some lo) (some avg) (some hi) jitter =
    if not (finite lo) || not (finite avg) || not (finite hi)
    then payload_error "icmp rtt must be a finite number"
    else if less lo zero_f || less avg zero_f || less hi zero_f
    then payload_error "icmp rtt must not be negative"
    else if less avg lo || less hi avg
    then payload_error "icmp rtt must satisfy min <= avg <= max"
    else validate_jitter jitter
validate_rtt _ _ _ jitter = payload_error "icmp rtt fields are required when a reply was received"

-- What is asked of the success flag and the times, by whether any reply was received.
validate_replies : IcmpResult → Option Error
unfolding validate_rtt
validate_replies m =
    if eqb_ℤ m.received (pos 0)
    then (if m.success
        then payload_error "icmp success must be false when no reply was received"
        else if is_set m.min_rtt_ms
            || is_set m.avg_rtt_ms
            || is_set m.max_rtt_ms
            || is_set m.jitter_ms
        then payload_error "icmp rtt fields must be null when no reply was received"
        else none)
    else if not m.success
    then payload_error "icmp success must be true when a reply was received"
    else validate_rtt m.min_rtt_ms m.avg_rtt_ms m.max_rtt_ms m.jitter_ms

unfoldable pub validate_icmp : IcmpResult → Option Error
unfolding validate_replies
validate_icmp m =
    if leb_ℤ m.sent (pos 0)
    then payload_error "icmp sent must be greater than zero"
    else if ltb_ℤ m.received (pos 0) || ltb_ℤ m.sent m.received
    then payload_error "icmp received must be between zero and sent"
    else if not (finite m.loss_ratio) || less m.loss_ratio zero_f || less one_f m.loss_ratio
    then payload_error "icmp loss_ratio must be between zero and one"
    else if less loss_ratio_tolerance (abs (m.loss_ratio -f expected_loss m.sent m.received))
    then payload_error "icmp loss_ratio does not match sent and received"
    else if less_eq (abs (m.loss_ratio -f one_f)) total_loss_tolerance
        && not (eqb_ℤ m.received (pos 0))
    then payload_error "icmp loss_ratio of 1 requires no replies received"
    else validate_replies m

unfoldable pub validate_dns : DnsResult → Option Error
validate_dns m =
    if m.success
    then elim m.duration_ms [
      | none ↦ payload_error "dns duration is required on success"
      | some d ↦
          if not (finite d)
          then payload_error "dns duration must be a finite number"
          else if less d zero_f
          then payload_error "dns duration must not be negative"
          else none
    ]
    else if is_set m.duration_ms
    then payload_error "dns duration must be null on failure"
    else none

abbrev bool_eq : Bool → Bool → Bool
bool_eq true b = b
bool_eq false b = not b

-- The rules on a response that arrived, with its status and its duration.
validate_response : Bool → ℤ → Float64 → Option Error
validate_response success code d =
    if ltb_ℤ code (pos 100) || ltb_ℤ (pos 599) code
    then payload_error "http status_code must be between 100 and 599"
    else if not (finite d)
    then payload_error "http duration must be a finite number"
    else if less d zero_f
    then payload_error "http duration must not be negative"
    else if not (bool_eq success (leb_ℤ (pos 200) code && ltb_ℤ code (pos 400)))
    then payload_error "http success does not match status_code"
    else none

http_fields : Bool → Option ℤ → Option Float64 → Option Error
unfolding validate_response
http_fields success none none =
    if success then payload_error "http success cannot be true without a response" else none
http_fields success (some code) (some d) = validate_response success code d
http_fields success _ _ =
    payload_error "http status_code and duration_ms must both be set or both be null"

unfoldable pub validate_http : HttpResult → Option Error
unfolding http_fields
validate_http m = http_fields m.success m.status_code m.duration_ms

abbrev check {ℓ} : {A : Type ℓ} → String → (A → Option Error) → Option A → Option Error
check missing validate none = payload_error missing
check missing validate (some m) = validate m

unfoldable pub validate_measurement : ProbeType → Measurement → Option Error
unfolding validate_icmp validate_dns validate_http
validate_measurement pt m =
    if pt == probe_icmp
    then check "icmp measurement is missing or malformed" validate_icmp m.icmp
    else if pt == probe_dns
    then check "dns measurement is missing or malformed" validate_dns m.dns
    else if pt == probe_http
    then check "http measurement is missing or malformed" validate_http m.http
    else some (new_error invalid_probe_type "unsupported probe type")

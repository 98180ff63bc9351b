-- ===== src/Protocol/Request.antt =====
-- internal/protocol/validate.go: `Validate`, the rules on a whole request.
pub mod Accepts
pub mod Stable
pub mod Staleness
use Prim.Native.String.{len}
use cqu_netprobe_gateway.Prelude.{
  ℕ, suc, String, Bool, true, false, not, ◌&&◌, ◌||◌, Option, none, some, List, [], ◌∷◌, ◌==◌, ltb,
  eqb, if◌then◌else◌, length,
}
use cqu_netprobe_gateway.Prelude.Int.{pos, ltb_ℤ, eqb_ℤ}
use cqu_netprobe_gateway.Prelude.GoMap.{GoMap, lookup, keys}
use cqu_netprobe_gateway.Prelude.Sort.{sort_by}
use cqu_netprobe_gateway.Protocol.Errors.{
  Code, Error, new_error, Result, ok, err, ◌>>=◌, ◌>>◌, error_of, invalid_payload, invalid_target,
  invalid_probe_type, unsupported_version, config_stale,
}
use cqu_netprobe_gateway.Protocol.Types.{
  ProbeType, probe_icmp, probe_dns, probe_http, version, Allowlist, Measurement, Results,
  PushRequest,
}
use cqu_netprobe_gateway.Protocol.Measurement.{validate_measurement}

abbrev pub max_probe_version_len : ℕ
max_probe_version_len = 32

abbrev pub max_config_id_len : ℕ
max_config_id_len = 64

unfoldable pub sort_strings : List String → List String
sort_strings = sort_by (λ s. s)

abbrev or_false : Option Bool → Bool
or_false none = false
or_false (some b) = b

-- Reading a missing key gives the zero value.
abbrev or_empty : Option Measurement → Measurement
or_empty none = record { icmp = none; dns = none; http = none }
or_empty (some m) = m

pub is_probe_type : ProbeType → Bool
is_probe_type pt = pt == probe_icmp || pt == probe_dns || pt == probe_http

-- `if bad { return newError(code, message) }`
abbrev reject_if : Bool → Code → String → Option Error
reject_if true c m = some (new_error c m)
reject_if false c m = none

-- The body of the inner loop, without the counter.
pub check_type : GoMap Bool → GoMap Measurement → String → Option Error
check_type allowed by_type pt =
    if not (is_probe_type pt)
    then some (new_error invalid_probe_type "unsupported probe type")
    else if not (or_false (lookup pt allowed))
    then some (new_error invalid_probe_type "probe type is not allowed for this target")
    else validate_measurement pt (or_empty (lookup pt by_type))

-- The inner loop; the number counts the measurements that passed.
pub check_types : GoMap Bool → GoMap Measurement → ℕ → List String → Result ℕ
check_types allowed by_type total [] = ok total
check_types allowed by_type total (pt ∷ types) =
    check_type allowed by_type pt >> check_types allowed by_type (suc total) types

pub check_target_types : GoMap Bool → GoMap Measurement → ℕ → Result ℕ
check_target_types allowed [] total = err (new_error invalid_payload "target has no measurements")
check_target_types allowed by_type total =
    check_types allowed by_type total (sort_strings (keys by_type))

-- The body of the outer loop.
pub check_target : Allowlist → Option (GoMap Measurement) → String → ℕ → Result ℕ
check_target al by_type target total = elim (lookup target al) [
  | none ↦ err (new_error invalid_target "unknown target")
  | some allowed ↦ elim by_type [
    | none ↦ check_target_types allowed [] total
    | some m ↦ check_target_types allowed m total
  ]
]

pub check_targets : Allowlist → Results → ℕ → List String → Result ℕ
check_targets al results total [] = ok total
check_targets al results total (target ∷ targets) =
    check_target al (lookup target results) target total >>= λ total'.
    check_targets al results total' targets

-- The final test of the counter.
pub at_least_one : ℕ → Result ℕ
at_least_one total =
    if eqb total 0
    then err (new_error invalid_payload "results must contain at least one measurement")
    else ok total

pub check_results : Allowlist → Results → Result ℕ
check_results al results = do
  total ← check_targets al results 0 (sort_strings (keys results))
  at_least_one total

-- The rules on the request's own fields, in the code's order.
pub check_header : PushRequest → String → Option Error
check_header r current =
    if not (eqb_ℤ r.version version)
    then some (new_error unsupported_version "unsupported protocol version")
    else if ltb max_config_id_len (len r.config_id)
    then some (new_error invalid_payload "config_id is too long")
    else if not (r.config_id == "") && not (r.config_id == current)
    then some (new_error config_stale "measurement config is out of date")
    else if ltb_ℤ r.timestamp (pos 0)
    then some (new_error invalid_payload "timestamp must not be negative")
    else if ltb max_probe_version_len (len r.probe_version)
    then some (new_error invalid_payload "probe_version is too long")
    else reject_if (eqb (length r.results) 0) invalid_payload
        "results must contain at least one measurement"

pub validate_request : Allowlist → String → PushRequest → Option Error
validate_request al current r = error_of (check_header r current >> check_results al r.results)

-- All that a run of `validate_request` computes with.
unfoldable pub request_runs : Unit {0}
unfolding validate_request check_header check_results check_targets check_target check_target_types
    check_types check_type at_least_one is_probe_type sort_strings lookup validate_measurement
request_runs = tt

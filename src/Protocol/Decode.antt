-- ===== src/Protocol/Decode.antt =====
-- internal/protocol/types.go: `Decode`. encoding/json is a parameter: what it makes of a body, of a
-- measurement's text, and whether a text is an object.
pub mod Shape
pub mod Tests
use cqu_netprobe_gateway.Prelude.{
  ℕ, String, Bool, true, false, not, Option, none, some, List, [], ◌∷◌, ◌==◌, if◌then◌else◌,
}
use cqu_netprobe_gateway.Prelude.Int.{ℤ, pos}
use cqu_netprobe_gateway.Prelude.GoMap.{GoMap}
use cqu_netprobe_gateway.Float64.{Float64, zero_f}
use cqu_netprobe_gateway.Protocol.Errors.{Error, new_error, Result, ok, err, ◌>>=◌, invalid_json}
use cqu_netprobe_gateway.Protocol.Types.{
  ProbeType, probe_icmp, probe_dns, probe_http, IcmpResult, DnsResult, HttpResult, Measurement,
  Results, PushRequest,
}

-- A field that is absent or null is `none`.
pub record IcmpWire : Type 0 where
  pub success : Option Bool
  pub sent : Option ℤ
  pub received : Option ℤ
  pub loss_ratio : Option Float64
  pub min_rtt_ms : Option Float64
  pub avg_rtt_ms : Option Float64
  pub max_rtt_ms : Option Float64
  pub jitter_ms : Option Float64

pub record DnsWire : Type 0 where
  pub success : Option Bool
  pub duration_ms : Option Float64

pub record HttpWire : Type 0 where
  pub success : Option Bool
  pub status_code : Option ℤ
  pub duration_ms : Option Float64

pub record RawRequest (Raw : Type 0) : Type 0 where
  pub version : Option ℤ
  pub timestamp : Option ℤ
  pub probe_version : Option String
  pub config_id : Option String
  pub results : GoMap (GoMap Raw)

pub record JsonLibrary : Type 1 where
  -- `json.RawMessage`.
  pub Raw : Type 0
  -- The first `Decode` of a body, with the bytes that it leaves; an error is `none`.
  pub decode_request : List ℕ → Option (RawRequest Raw × List ℕ)
  -- Whether a `Decode` of these bytes gives io.EOF.
  pub at_eof : List ℕ → Bool
  -- Whether `Unmarshal` into a map of raw messages succeeds.
  pub is_object : Raw → Bool
  pub as_icmp : Raw → Option IcmpWire
  pub as_dns : Raw → Option DnsWire
  pub as_http : Raw → Option HttpWire

abbrev or_zero {ℓ} : {A : Type ℓ} → A → Option A → A
or_zero zero none = zero
or_zero zero (some a) = a

-- An Unmarshal's result, or `invalid_json` with a message.
abbrev or_invalid {ℓ} : {A : Type ℓ} → String → Option A → Result A
or_invalid message none = err (new_error invalid_json message)
or_invalid message (some a) = ok a

abbrev icmp_result : IcmpWire → IcmpResult
icmp_result w = record {
  success = or_zero false w.success;
  sent = or_zero (pos 0) w.sent;
  received = or_zero (pos 0) w.received;
  loss_ratio = or_zero zero_f w.loss_ratio;
  min_rtt_ms = w.min_rtt_ms;
  avg_rtt_ms = w.avg_rtt_ms;
  max_rtt_ms = w.max_rtt_ms;
  jitter_ms = w.jitter_ms;
}

abbrev dns_result : DnsWire → DnsResult
dns_result w = record { success = or_zero false w.success; duration_ms = w.duration_ms }

abbrev http_result : HttpWire → HttpResult
http_result w = record {
  success = or_zero false w.success;
  status_code = w.status_code;
  duration_ms = w.duration_ms;
}

abbrev wrong_type : String
wrong_type = "measurement contains a value of the wrong type"

module _ (J : JsonLibrary) where
  pub json_fields : J.Raw → Result (Unit {0})
  json_fields body =
      if J.is_object body
      then ok tt
      else err (new_error invalid_json "measurement is not a JSON object")

  pub decode_icmp : J.Raw → Result Measurement
  decode_icmp body = do
    _ ← json_fields body
    wire ← or_invalid wrong_type (J.as_icmp body)
    ok (record { icmp = some (icmp_result wire); dns = none; http = none })

  pub decode_dns : J.Raw → Result Measurement
  decode_dns body = do
    _ ← json_fields body
    wire ← or_invalid wrong_type (J.as_dns body)
    ok (record { icmp = none; dns = some (dns_result wire); http = none })

  pub decode_http : J.Raw → Result Measurement
  decode_http body = do
    _ ← json_fields body
    wire ← or_invalid wrong_type (J.as_http body)
    ok (record { icmp = none; dns = none; http = some (http_result wire) })

  unfoldable pub decode_measurement : ProbeType → J.Raw → Result Measurement
  decode_measurement pt body =
      if pt == probe_icmp
      then decode_icmp body
      else if pt == probe_dns
      then decode_dns body
      else if pt == probe_http
      then decode_http body
      else ok (record { icmp = none; dns = none; http = none })

  -- The inner loop, in the order in which Go iterates.
  pub decode_types : GoMap J.Raw → Result (GoMap Measurement)
  decode_types [] = ok []
  decode_types ((type_name, body) ∷ by_type) = do
    m ← decode_measurement type_name body
    rest ← decode_types by_type
    ok ((type_name, m) ∷ rest)

  pub decode_targets : GoMap (GoMap J.Raw) → Result Results
  decode_targets [] = ok []
  decode_targets ((target, by_type) ∷ results) = do
    types ← decode_types by_type
    rest ← decode_targets results
    ok ((target, types) ∷ rest)

  pub decode_raw : RawRequest J.Raw → Result PushRequest
  decode_raw raw = do
    results ← decode_targets raw.results
    ok (record {
      version = or_zero (pos 0) raw.version;
      timestamp = or_zero (pos 0) raw.timestamp;
      probe_version = or_zero "" raw.probe_version;
      config_id = or_zero "" raw.config_id;
      results = results;
    })

  pub decode_first : Option (RawRequest J.Raw × List ℕ) → Result PushRequest
  decode_first none = err (new_error invalid_json "request body is not valid JSON")
  decode_first (some (raw, rest)) =
      if not (J.at_eof rest)
      then err (new_error invalid_json "request body contains trailing data")
      else decode_raw raw

  unfoldable pub decode : List ℕ → Result PushRequest
  decode body = decode_first (J.decode_request body)

  -- All that a run of `decode` computes with.
  unfoldable pub decode_runs : Unit {0}
  unfolding json_fields decode_icmp decode_dns decode_http decode_measurement decode_types
      decode_targets decode_raw decode_first decode
  decode_runs = tt

-- ===== src/Protocol/Measurement/Codes.antt =====
-- The code that a measurement rule fails with.
use cqu_netprobe_gateway.Prelude.{
  String, Bool, Bool-cases, Option, none, some, ◌==◌, ◌≡◌, ◌⊎◌, inl, inr, arith,
}
use cqu_netprobe_gateway.Prelude.Int.{ℤ}
use cqu_netprobe_gateway.Float64.{Float64}
use cqu_netprobe_gateway.Protocol.Errors.{Error, invalid_payload, invalid_probe_type}
use cqu_netprobe_gateway.Protocol.Types.{IcmpResult, DnsResult, HttpResult, Measurement}
use cqu_netprobe_gateway.Protocol.Measurement.{
  check, http_fields, validate_response, validate_jitter, validate_rtt, validate_replies,
  validate_icmp, validate_dns, validate_http, validate_measurement,
}

-- Every error of a rule is `invalid_payload`.
abbrev FailsAsPayload : Option Error → Type 0
FailsAsPayload o = (e : Error) → o ≡ some e → e.code ≡ invalid_payload

validate_jitter-code : (o : Option Float64) → FailsAsPayload (validate_jitter o)
unfolding validate_jitter
validate_jitter-code none e q = ground (arith, q)
validate_jitter-code (some j) e q = ground (arith, q)

validate_rtt-code :
    (lo avg hi jitter : Option Float64) → FailsAsPayload (validate_rtt lo avg hi jitter)
unfolding validate_rtt
validate_rtt-code (some lo) (some avg) (some hi) jitter e q =
    ground (arith, q, validate_jitter-code jitter e)
validate_rtt-code none avg hi jitter e q = ground (arith, q)
validate_rtt-code (some lo) none hi jitter e q = ground (arith, q)
validate_rtt-code (some lo) (some avg) none jitter e q = ground (arith, q)

validate_replies-code : (m : IcmpResult) → FailsAsPayload (validate_replies m)
unfolding validate_replies
validate_replies-code m e q =
    ground (arith, q, validate_rtt-code m.min_rtt_ms m.avg_rtt_ms m.max_rtt_ms m.jitter_ms e)

validate_icmp-code : (m : IcmpResult) → FailsAsPayload (validate_icmp m)
unfolding validate_icmp
validate_icmp-code m e q = ground (arith, q, validate_replies-code m e)

validate_dns-code : (m : DnsResult) → FailsAsPayload (validate_dns m)
unfolding validate_dns
validate_dns-code m e q = ground (arith, q)

http_fields-code :
    (b : Bool) (c : Option ℤ) (d : Option Float64) → FailsAsPayload (http_fields b c d)
unfolding http_fields validate_response
http_fields-code b none none e q = ground (arith, q)
http_fields-code b none (some d) e q = ground (arith, q)
http_fields-code b (some c) none e q = ground (arith, q)
http_fields-code b (some c) (some d) e q = ground (arith, q)

validate_http-code : (m : HttpResult) → FailsAsPayload (validate_http m)
unfolding validate_http
validate_http-code m e q = http_fields-code m.success m.status_code m.duration_ms e q

check-code {ℓ} :
    {A : Type ℓ} (missing : String) (rule : A → Option Error) (o : Option A)
    → ((a : A) → FailsAsPayload (rule a))
    → FailsAsPayload (check missing rule o)
check-code missing rule none h e q = ground (arith, q)
check-code missing rule (some a) h e q = h a e q

-- A rejected measurement is rejected as `invalid_payload`, or as `invalid_probe_type`.
pub validate_measurement-code :
    (pt : String) (m : Measurement) (e : Error)
    → validate_measurement pt m ≡ some e
    → (e.code ≡ invalid_payload) ⊎ (e.code ≡ invalid_probe_type)
unfolding validate_measurement
validate_measurement-code pt m e q = elim (Bool-cases (pt == "icmp")) [
  | inl i ↦ inl (check-code _ validate_icmp m.icmp validate_icmp-code e (rw i at q))
  | inr ni ↦ elim (Bool-cases (pt == "dns")) [
    | inl d ↦ inl (check-code _ validate_dns m.dns validate_dns-code e (rw (ni, d) at q))
    | inr nd ↦ elim (Bool-cases (pt == "http")) [
      | inl t ↦ inl (check-code _ validate_http m.http validate_http-code e (rw (ni, nd, t) at q))
      | inr nt ↦ inr (unsupported (rw (ni, nd, nt) at q))
    ]
  ]
]
  where
    unsupported :
        some (record { code = invalid_probe_type; message = "unsupported probe type" }) ≡ some e
        → e.code ≡ invalid_probe_type
    unsupported p = ground (arith, p)

-- ===== src/Protocol/Measurement/Http.antt =====
-- Which DNS and HTTP measurements the gateway accepts.
use cqu_netprobe_gateway.Prelude.{
  Bool, Bool-cases, true, false, Option, none, some, ◌≡◌, ◌↔◌, ◌⊎◌, inl, inr, refl, arith,
}
use cqu_netprobe_gateway.Prelude.Int.{ℤ, pos, ◌≤ℤ◌, ◌<ℤ◌}
use cqu_netprobe_gateway.Float64.{Float64}
use cqu_netprobe_gateway.Protocol.Types.{DnsResult, HttpResult}
use cqu_netprobe_gateway.Protocol.Measurement.{
  validate_dns, validate_http, http_fields, validate_response,
}
use cqu_netprobe_gateway.Protocol.Measurement.Duration.{IsDuration, finite_iff, nonneg_iff}

-- A success with its duration, or a failure with none.
abbrev pub IsValidDns : DnsResult → Type 0
IsValidDns m =
    ((m.success ≡ true) × ((d : Float64) × (m.duration_ms ≡ some d) × IsDuration d))
    ⊎ ((m.success ≡ false) × (m.duration_ms ≡ none))

dns_fields_iff :
    (m : DnsResult) (o : Option Float64)
    → m.duration_ms ≡ o
    → (validate_dns m ≡ none) ↔ IsValidDns m
unfolding validate_dns
dns_fields_iff m none e = ground arith
dns_fields_iff m (some d) e = (λ h. accepted h, λ h. ground (arith, finite_iff d, nonneg_iff d))
  where
    accepted : validate_dns m ≡ none → IsValidDns m
    accepted h = elim (Bool-cases m.success) [
      | inl yes_ok ↦ inl (yes_ok, (d, e, ground (arith, finite_iff d, nonneg_iff d)))
      | inr fails ↦ ground arith
    ]

-- `validateDNS` accepts exactly the measurements that Protocol v1 §10 allows.
pub validate_dns_iff : (m : DnsResult) → (validate_dns m ≡ none) ↔ IsValidDns m
validate_dns_iff m = dns_fields_iff m m.duration_ms refl

-- A status whose class says success.
abbrev IsSuccessStatus : ℤ → Type 0
IsSuccessStatus code = (pos 200 ≤ℤ code) × (code <ℤ pos 400)

-- No response at all, and then a failure; or a status in range with a duration, and a success flag
-- that is the status's class.
pub record HasResponse (m : HttpResult) : Type 0 where
  pub code : ℤ
  pub duration : Float64
  pub code_set : m.status_code ≡ some code
  pub duration_set : m.duration_ms ≡ some duration
  pub code_ge : pos 100 ≤ℤ code
  pub code_le : code ≤ℤ pos 599
  pub duration_ok : IsDuration duration
  pub success_iff : (m.success ≡ true) ↔ IsSuccessStatus code

abbrev pub IsValidHttp : HttpResult → Type 0
IsValidHttp m =
    ((m.success ≡ false) × (m.status_code ≡ none) × (m.duration_ms ≡ none)) ⊎ HasResponse m

abbrev IsResponse : Bool → ℤ → Float64 → Type 0
IsResponse success c d =
    (pos 100 ≤ℤ c) × (c ≤ℤ pos 599) × IsDuration d × ((success ≡ true) ↔ IsSuccessStatus c)

IsResponse-iff :
    (success : Bool) (c : ℤ) (d : Float64)
    → (validate_response success c d ≡ none) ↔ IsResponse success c d
unfolding validate_response
IsResponse-iff success c d = (λ h. ground (arith, finite_iff d, nonneg_iff d), λ h. complete h)
  where
    complete : IsResponse success c d → validate_response success c d ≡ none
    complete h = ground (arith, finite_iff d, nonneg_iff d)

IsResponse-of_HasResponse :
    (m : HttpResult) (c : ℤ) (d : Float64)
    → m.status_code ≡ some c
    → m.duration_ms ≡ some d
    → HasResponse m
    → IsResponse m.success c d
IsResponse-of_HasResponse m c d e f r =
    let same_code : r.code ≡ c = cc (e, r.code_set) in
    let same_duration : r.duration ≡ d = cc (f, r.duration_set) in
    rw (← same_code, ← same_duration) (r.code_ge, r.code_le, r.duration_ok, r.success_iff)

http_fields_iff :
    (m : HttpResult) (o : Option ℤ) (p : Option Float64)
    → m.status_code ≡ o
    → m.duration_ms ≡ p
    → (http_fields m.success m.status_code m.duration_ms ≡ none) ↔ IsValidHttp m
unfolding http_fields
http_fields_iff m none none e f = ground arith
http_fields_iff m none (some d) e f = ground arith
http_fields_iff m (some c) none e f = ground arith
http_fields_iff m (some c) (some d) e f = (
  λ h.
      let (lo, hi, ok, class) = (IsResponse-iff m.success c d).0 (rw (e, f) at h) in
      inr (record {
        code = c;
        duration = d;
        code_set = e;
        duration_set = f;
        code_ge = lo;
        code_le = hi;
        duration_ok = ok;
        success_iff = class;
      }),
  λ h. rw (e, f) ((IsResponse-iff m.success c d).1 (response h)),
)
  where
    response : IsValidHttp m → IsResponse m.success c d
    response (inl (a, b, k)) = absurd (ground arith)
    response (inr r) = IsResponse-of_HasResponse m c d e f r

-- `validateHTTP` accepts exactly the measurements that Protocol v1 §11 allows.
pub validate_http_iff : (m : HttpResult) → (validate_http m ≡ none) ↔ IsValidHttp m
unfolding validate_http
validate_http_iff m = http_fields_iff m m.status_code m.duration_ms refl refl

-- ===== src/Api/Authenticate.antt =====
-- internal/api/push.go: `authenticate`. The hash of a token is a parameter.
pub mod Effects
use Prim.Native.String.{len, slice}
use text.Mathlib.Text.{starts_with}
use cqu_netprobe_gateway.Prelude.{
  String, Bool, true, false, not, Option, none, some, ◌==◌, if◌then◌else◌,
}
use cqu_netprobe_gateway.Prelude.Time.{Time}
use cqu_netprobe_gateway.RateLimit.{RateLimiter}
use cqu_netprobe_gateway.ClientIp.{NetLibrary, from}
use cqu_netprobe_gateway.Protocol.Errors.{
  Code, unauthorized, rate_limited, internal_error, service_unavailable,
}
use cqu_netprobe_gateway.Store.{Probe, Lookup, found, not_found, failed}
use cqu_netprobe_gateway.Api.Errors.{
  Response, write_error, msg_unauthorized, msg_rate_limited, msg_unavailable,
}
use cqu_netprobe_gateway.Api.Limiter.{Limiter, auth_failure_blocked, allow_auth_failure}
use cqu_netprobe_gateway.Api.Server.{Server, PushCall, Clock, Reads, auth_failed, reject}

abbrev pub bearer_prefix : String
bearer_prefix = "Bearer "

-- `strings.TrimPrefix`.
abbrev pub trim_prefix : String → String → String
trim_prefix s prefix = if starts_with s prefix then slice s (len prefix) (len s) else s

-- The token of a well-formed header that is not empty.
unfoldable pub raw_token : String → Option String
raw_token header =
    let raw = trim_prefix header bearer_prefix in
    if not (starts_with header bearer_prefix) then none else if raw == "" then none else some raw

-- The probe, or the response that was written.
pub data Authenticated : Type 0 where
  denied : Response → Authenticated
  granted : Probe → Authenticated

module _ (R : RateLimiter) (L : NetLibrary) (hash : String → String) where
  abbrev pub deny_unauthorized : Server R L → String → Server R L × Authenticated
  deny_unauthorized s reason =
      (auth_failed s reason, denied (write_error 401 unauthorized msg_unauthorized))

  -- `s.limiter != nil && s.limiter.AuthFailureBlocked(ip)`.
  pub blocked_of : Server R L → Option (Limiter R) → String → Clock → Server R L × Bool
  blocked_of s none ip clock = (s, false)
  blocked_of s (some l) ip clock =
      let (l', blocked) = auth_failure_blocked R l ip clock.peek_now clock.peek_at in
      (record s { limiter = some l' }, blocked)

  -- `s.limiter != nil && !s.limiter.AllowAuthFailure(ip)`.
  pub exhausted_of : Server R L → Option (Limiter R) → String → Clock → Server R L × Bool
  exhausted_of s none ip clock = (s, false)
  exhausted_of s (some l) ip clock =
      let (l', ok) = allow_auth_failure R l ip clock.failure_now clock.failure_at in
      (record s { limiter = some l' }, not ok)

  -- The path of a token that no probe has.
  pub charge_address : Server R L → String → Clock → Server R L × Authenticated
  charge_address s ip clock =
      let (s', exhausted) = exhausted_of s s.limiter ip clock in
      if exhausted
      then (
        reject (auth_failed s' "invalid_token") rate_limited,
        denied (write_error 429 rate_limited msg_rate_limited),
      )
      else deny_unauthorized s' "invalid_token"

  pub resolve : Server R L → String → Clock → Lookup Probe → Server R L × Authenticated
  resolve s ip clock (found probe) = (s, granted probe)
  resolve s ip clock not_found = charge_address s ip clock
  resolve s ip clock failed =
      (reject s internal_error, denied (write_error 503 service_unavailable msg_unavailable))

  -- From a well-formed header on.
  pub check_token : Server R L → Reads → Clock → String → String → Server R L × Authenticated
  check_token s reads clock ip raw =
      let (s', blocked) = blocked_of s s.limiter ip clock in
      if blocked
      then (reject s' rate_limited, denied (write_error 429 rate_limited msg_rate_limited))
      else resolve s' ip clock (reads.probe_by_token_hash (hash raw))

  pub authenticate_token :
      Server R L → Reads → Clock → PushCall → Option String → Server R L × Authenticated
  authenticate_token s reads clock r none = deny_unauthorized s "missing_or_malformed"
  authenticate_token s reads clock r (some raw) =
      check_token s reads clock (from L r.client s.trusted_proxies) raw

  unfoldable pub authenticate : Server R L → Reads → Clock → PushCall → Server R L × Authenticated
  authenticate s reads clock r = authenticate_token s reads clock r (raw_token r.authorization)

  -- All that a run of `authenticate` computes with.
  unfoldable pub authenticate_runs : Unit {0}
  unfolding blocked_of exhausted_of charge_address resolve check_token raw_token authenticate_token
      authenticate
  authenticate_runs = tt

-- ===== src/Api/Authenticate/Effects.antt =====
-- What authentication leaves alone, and what its answers mean.
use cqu_netprobe_gateway.Prelude.{
  String, true, Option, none, some, ◌≡◌, ◌⊎◌, refl, sym, ap, subst, ◌≢◌, ◌∙◌, inl, inr, Bool-cases,
  arith,
}
use cqu_netprobe_gateway.Prelude.GoMap.{GoMap, lookup}
use cqu_netprobe_gateway.RateLimit.{RateLimiter}
use cqu_netprobe_gateway.ClientIp.{NetLibrary, from}
use cqu_netprobe_gateway.Protocol.Errors.{rate_limited, service_unavailable}
use cqu_netprobe_gateway.Store.{Probe, Lookup, found, not_found, failed}
use cqu_netprobe_gateway.Api.Errors.{
  Response, no_content, write_error, msg_rate_limited, msg_unavailable,
}
use cqu_netprobe_gateway.Api.Limiter.{Limiter, auth_failure_blocked, allow_auth_failure}
use cqu_netprobe_gateway.Api.Limiter.Private.{peek-buckets, charge_entry-buckets}
use cqu_netprobe_gateway.Api.Server.{Server, PushCall, Clock, Reads}
use cqu_netprobe_gateway.Api.Authenticate.{
  Authenticated, denied, granted, raw_token, authenticate_token, blocked_of, exhausted_of,
  charge_address, resolve, check_token, authenticate,
}

module _ (R : RateLimiter) (L : NetLibrary) (hash : String → String) where
  -- The probes' own allowances.
  abbrev pub probe_buckets : Option (Limiter R) → Option (GoMap R.Bucket)
  probe_buckets none = none
  probe_buckets (some l) = some l.buckets

  -- What authentication has no effect on.
  pub record Unchanged (s t : Server R L) : Type 0 where
    pub latest_eq : t.latest ≡ s.latest
    pub buckets_eq : probe_buckets t.limiter ≡ probe_buckets s.limiter

  blocked_of-Unchanged :
      (s : Server R L) (o : Option (Limiter R)) (ip : String) (clock : Clock)
      → s.limiter ≡ o
      → Unchanged s (blocked_of R L hash s o ip clock).0
  unfolding blocked_of auth_failure_blocked
  blocked_of-Unchanged s none ip clock e = record { latest_eq = refl; buckets_eq = refl }
  blocked_of-Unchanged s (some l) ip clock e = record {
    latest_eq = refl;
    buckets_eq =
        ap some ((peek-buckets R l ip (lookup ip l.failures) clock.peek_now clock.peek_at).0)
        ∙ ap probe_buckets (sym e);
  }

  exhausted_of-Unchanged :
      (s : Server R L) (o : Option (Limiter R)) (ip : String) (clock : Clock)
      → s.limiter ≡ o
      → Unchanged s (exhausted_of R L hash s o ip clock).0
  unfolding exhausted_of allow_auth_failure
  exhausted_of-Unchanged s none ip clock e = record { latest_eq = refl; buckets_eq = refl }
  exhausted_of-Unchanged s (some l) ip clock e = record {
    latest_eq = refl;
    buckets_eq =
        ap some (
          (charge_entry-buckets R l ip (lookup ip l.failures) clock.failure_now clock.failure_at).0)
        ∙ ap probe_buckets (sym e);
  }

  Unchanged-trans : (s t u : Server R L) → Unchanged s t → Unchanged t u → Unchanged s u
  Unchanged-trans s t u h k = record {
    latest_eq = k.latest_eq ∙ h.latest_eq;
    buckets_eq = k.buckets_eq ∙ h.buckets_eq;
  }

  charge_address-Unchanged :
      (s : Server R L) (ip : String) (clock : Clock)
      → Unchanged s (charge_address R L hash s ip clock).0
  unfolding charge_address
  charge_address-Unchanged s ip clock =
      let first = exhausted_of-Unchanged s s.limiter ip clock refl in
      elim (Bool-cases (exhausted_of R L hash s s.limiter ip clock).1) [
        | inl e ↦
            rw (e, charge_address)
              (record { latest_eq = first.latest_eq; buckets_eq = first.buckets_eq })
        | inr e ↦
            rw (e, charge_address)
              (record { latest_eq = first.latest_eq; buckets_eq = first.buckets_eq })
      ]

  resolve-Unchanged :
      (s : Server R L) (ip : String) (clock : Clock) (o : Lookup Probe)
      → Unchanged s (resolve R L hash s ip clock o).0
  unfolding resolve
  resolve-Unchanged s ip clock (found probe) = record { latest_eq = refl; buckets_eq = refl }
  resolve-Unchanged s ip clock failed = record { latest_eq = refl; buckets_eq = refl }
  resolve-Unchanged s ip clock not_found = charge_address-Unchanged s ip clock

  check_token-Unchanged :
      (s : Server R L) (reads : Reads) (clock : Clock) (ip raw : String)
      → Unchanged s (check_token R L hash s reads clock ip raw).0
  unfolding check_token
  check_token-Unchanged s reads clock ip raw =
      let first = blocked_of-Unchanged s s.limiter ip clock refl in
      elim (Bool-cases (blocked_of R L hash s s.limiter ip clock).1) [
        | inl e ↦
            rw (e, check_token)
              (record { latest_eq = first.latest_eq; buckets_eq = first.buckets_eq })
        | inr e ↦
            rw (e, check_token)
              (Unchanged-trans s (blocked_of R L hash s s.limiter ip clock).0 _ first
                (resolve-Unchanged (blocked_of R L hash s s.limiter ip clock).0 ip clock _))
      ]

  -- A denial is an error response.
  abbrev IsAnswer : Authenticated → Type 0
  IsAnswer (denied response) = response ≢ no_content
  IsAnswer (granted probe) = Unit

  resolve-IsAnswer :
      (s : Server R L) (ip : String) (clock : Clock) (o : Lookup Probe)
      → IsAnswer (resolve R L hash s ip clock o).1
  unfolding resolve charge_address
  resolve-IsAnswer s ip clock (found probe) = tt
  resolve-IsAnswer s ip clock failed = ground arith
  resolve-IsAnswer s ip clock not_found =
      elim (Bool-cases (exhausted_of R L hash s s.limiter ip clock).1) [
        | inl e ↦ rw (resolve, charge_address, e) (ground arith)
        | inr e ↦ rw (resolve, charge_address, e) (ground arith)
      ]

  check_token-IsAnswer :
      (s : Server R L) (reads : Reads) (clock : Clock) (ip raw : String)
      → IsAnswer (check_token R L hash s reads clock ip raw).1
  unfolding check_token
  check_token-IsAnswer s reads clock ip raw =
      elim (Bool-cases (blocked_of R L hash s s.limiter ip clock).1) [
        | inl e ↦ rw (check_token, e) (ground arith)
        | inr e ↦
            rw (check_token, e)
              (resolve-IsAnswer (blocked_of R L hash s s.limiter ip clock).0 ip clock _)
      ]

  pub authenticate-IsAnswer :
      (s : Server R L) (reads : Reads) (clock : Clock) (r : PushCall) (response : Response)
      → (authenticate R L hash s reads clock r).1 ≡ denied response
      → response ≢ no_content
  unfolding authenticate authenticate_token
  authenticate-IsAnswer s reads clock r response h =
      subst IsAnswer h (from_token (raw_token r.authorization))
    where
      from_token : (o : Option String) → IsAnswer (authenticate_token R L hash s reads clock r o).1
      from_token none = ground arith
      from_token (some raw) =
          check_token-IsAnswer s reads clock (from L r.client s.trusted_proxies) raw

  -- Whatever a caller sends, authentication neither stores a measurement nor spends the allowance of
  -- any probe.
  pub authenticate-Unchanged :
      (s : Server R L) (reads : Reads) (clock : Clock) (r : PushCall)
      → Unchanged s (authenticate R L hash s reads clock r).0
  unfolding authenticate authenticate_token
  authenticate-Unchanged s reads clock r = from_token (raw_token r.authorization)
    where
      from_token :
          (o : Option String) → Unchanged s (authenticate_token R L hash s reads clock r o).0
      from_token none = record { latest_eq = refl; buckets_eq = refl }
      from_token (some raw) =
          check_token-Unchanged s reads clock (from L r.client s.trusted_proxies) raw

  -- A request whose address is blocked is answered 429 whatever the database holds.
  pub authenticate_blocked :
      (s : Server R L) (reads other : Reads) (clock : Clock) (r : PushCall) (raw : String)
      → raw_token r.authorization ≡ some raw
      → (blocked_of R L hash s s.limiter (from L r.client s.trusted_proxies) clock).1 ≡ true
      → ((authenticate R L hash s reads clock r).1
          ≡ denied (write_error 429 rate_limited msg_rate_limited))
        × (authenticate R L hash s reads clock r ≡ authenticate R L hash s other clock r)
  unfolding authenticate authenticate_token check_token
  authenticate_blocked s reads other clock r raw given blocked =
      rw (given, authenticate, authenticate_token, check_token, blocked) (refl, refl)

  -- A database that fails is never reported as a bad credential: where the header carries a token,
  -- the answer is 503, or the 429 of a blocked address.
  pub authenticate_failed :
      (s : Server R L) (reads : Reads) (clock : Clock) (r : PushCall) (raw : String)
      → raw_token r.authorization ≡ some raw
      → reads.probe_by_token_hash (hash raw) ≡ failed
      → ((authenticate R L hash s reads clock r).1
          ≡ denied (write_error 503 service_unavailable msg_unavailable))
        ⊎ ((authenticate R L hash s reads clock r).1
            ≡ denied (write_error 429 rate_limited msg_rate_limited))
  unfolding authenticate authenticate_token check_token resolve
  authenticate_failed s reads clock r raw given broken =
      elim (Bool-cases
        (blocked_of R L hash s s.limiter (from L r.client s.trusted_proxies) clock).1) [
          | inl blocked ↦
              rw (given, authenticate, authenticate_token, check_token, blocked) (inr refl)
          | inr admitted ↦
              rw (given, authenticate, authenticate_token, check_token, admitted, broken) (inl refl)
        ]

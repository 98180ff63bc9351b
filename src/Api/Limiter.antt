-- ===== src/Api/Limiter.antt =====
-- internal/api/limiter.go: a token bucket for each probe, and a bounded table of the addresses that
-- failed to authenticate. A call of time.Now is an argument: `now` is the recency stamp, `at` the
-- bucket's own reading.
pub mod Oldest
pub mod Flood
pub mod Bounded
pub mod Private
pub mod Tests
use cqu_netprobe_gateway.Prelude.{
  ℕ, ◌/◌, String, Bool, false, Option, none, some, List, [], ◌∷◌, leb, if◌then◌else◌, length,
}
use cqu_netprobe_gateway.Prelude.Int.{pos}
use cqu_netprobe_gateway.Prelude.GoMap.{GoMap, lookup, insert, erase}
use cqu_netprobe_gateway.Prelude.Time.{Time, Duration, minute, before}
use cqu_netprobe_gateway.Float64.{less, of_int}
use cqu_netprobe_gateway.RateLimit.{RateLimiter}

abbrev pub max_tracked_auth_failures : ℕ
max_tracked_auth_failures = 10000

abbrev pub auth_failure_burst : ℕ
auth_failure_burst = 20

abbrev pub window_for_auth_failures : Duration
window_for_auth_failures = minute

module _ (R : RateLimiter) where
  pub record AuthFailureEntry : Type 0 where
    pub limiter : R.Bucket
    pub last_used : Time

  pub record Limiter : Type 0 where
    pub interval : Duration
    pub burst : ℕ
    pub buckets : GoMap R.Bucket
    pub failures : GoMap AuthFailureEntry

  unfoldable pub new_limiter : Duration → ℕ → Limiter
  new_limiter interval burst = record {
    interval = interval;
    burst = burst;
    buckets = [];
    failures = [];
  }

  abbrev pub bucket_or_new : Limiter → Option R.Bucket → R.Bucket
  bucket_or_new l none = R.fresh l.interval l.burst
  bucket_or_new l (some b) = b

  unfoldable pub allow : Limiter → String → Time → Limiter × Bool
  allow l probe_id at =
      let (ok, b) = R.allow_at (bucket_or_new l (lookup probe_id l.buckets)) at in
      (record l { buckets = insert probe_id b l.buckets }, ok)

  unfoldable pub remove : Limiter → String → Limiter
  remove l probe_id = record l { buckets = erase probe_id l.buckets }

  -- The scan for the oldest entry, with the best one so far.
  pub oldest_from : String × Time → GoMap AuthFailureEntry → String
  oldest_from best [] = best.0
  oldest_from best ((k, candidate) ∷ m) =
      oldest_from (if before candidate.last_used best.1 then (k, candidate.last_used) else best) m

  pub oldest_key : GoMap AuthFailureEntry → String
  unfolding oldest_from
  oldest_key [] = ""
  oldest_key ((k, candidate) ∷ m) = oldest_from (k, candidate.last_used) m

  pub make_room : GoMap AuthFailureEntry → GoMap AuthFailureEntry
  unfolding oldest_key
  make_room m = if leb max_tracked_auth_failures (length m) then erase (oldest_key m) m else m

  abbrev pub fresh_failures : R.Bucket
  fresh_failures = R.fresh (window_for_auth_failures / auth_failure_burst) auth_failure_burst

  -- The end of `AllowAuthFailure`, on the address's own bucket.
  pub charge : Limiter → GoMap AuthFailureEntry → String → R.Bucket → Time → Time → Limiter × Bool
  charge l failures ip b now at =
      let (ok, b') = R.allow_at b at in
      (record l { failures = insert ip (record { limiter = b'; last_used = now }) failures }, ok)

  pub charge_entry : Limiter → String → Option AuthFailureEntry → Time → Time → Limiter × Bool
  unfolding make_room charge
  charge_entry l ip (some e) now at = charge l l.failures ip e.limiter now at
  charge_entry l ip none now at = charge l (make_room l.failures) ip fresh_failures now at

  unfoldable pub allow_auth_failure : Limiter → String → Time → Time → Limiter × Bool
  unfolding charge_entry
  allow_auth_failure l ip now at = charge_entry l ip (lookup ip l.failures) now at

  pub peek : Limiter → String → Option AuthFailureEntry → Time → Time → Limiter × Bool
  unfolding of_int
  peek l ip none now at = (l, false)
  peek l ip (some e) now at = (
    record l { failures = insert ip (record e { last_used = now }) l.failures },
    less (R.tokens_at e.limiter at) (of_int (pos 1)),
  )

  unfoldable pub auth_failure_blocked : Limiter → String → Time → Time → Limiter × Bool
  unfolding peek
  auth_failure_blocked l ip now at = peek l ip (lookup ip l.failures) now at

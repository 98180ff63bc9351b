-- ===== src/Portal/Limiter.antt =====
-- internal/portal/limiter.go: the throttle on registrations, one bucket for each address. `now` is
-- the stamp and `at` the buckets' own reading of the clock.
pub mod Idle
use cqu_netprobe_gateway.Prelude.{
  ℕ, String, Bool, true, false, ◌||◌, ◌==◌, Option, none, some, List, [], ◌∷◌, leb, if◌then◌else◌,
  length,
}
use cqu_netprobe_gateway.Prelude.Int.{pos}
use cqu_netprobe_gateway.Prelude.GoMap.{GoMap, lookup, insert, erase}
use cqu_netprobe_gateway.Prelude.Time.{Time, Duration, before}
use cqu_netprobe_gateway.Float64.{less_eq, of_int}
use cqu_netprobe_gateway.RateLimit.{RateLimiter}

abbrev pub max_tracked_register_ips : ℕ
max_tracked_register_ips = 10000

module _ (R : RateLimiter) where
  pub record IpEntry : Type 0 where
    pub limiter : R.Bucket
    pub last_used : Time

  pub record RegisterLimiter : Type 0 where
    pub interval : Duration
    pub burst : ℕ
    pub buckets : GoMap IpEntry

  unfoldable pub new_register_limiter : Duration → ℕ → RegisterLimiter
  new_register_limiter interval burst = record { interval = interval; burst = burst; buckets = [] }

  -- `e.limiter.Tokens() >= float64(l.burst)`.
  unfoldable pub is_idle : ℕ → Time → IpEntry → Bool
  is_idle burst at e = less_eq (of_int (pos burst)) (R.tokens_at e.limiter at)

  abbrev pub older : String × Time → String → IpEntry → String × Time
  older oldest k e =
      if (oldest.0 == "") || before e.last_used oldest.1 then (k, e.last_used) else oldest

  -- The key to delete, with the oldest one so far, which "" stands for the lack of.
  pub victim_from : ℕ → Time → String × Time → GoMap IpEntry → Option String
  victim_from burst at oldest [] = if oldest.0 == "" then none else some oldest.0
  victim_from burst at oldest ((k, e) ∷ m) =
      let rest = victim_from burst at (older oldest k e) m in
      if is_idle burst at e then some k else rest

  abbrev pub delete_found : GoMap IpEntry → Option String → GoMap IpEntry
  delete_found m none = m
  delete_found m (some k) = erase k m

  -- `evictIdleLocked`.
  pub evict_idle : ℕ → Time → GoMap IpEntry → GoMap IpEntry
  evict_idle burst at m = delete_found m (victim_from burst at ("", 0) m)

  pub make_room : ℕ → Time → GoMap IpEntry → GoMap IpEntry
  make_room burst at m =
      if leb max_tracked_register_ips (length m) then evict_idle burst at m else m

  pub spend :
      RegisterLimiter → GoMap IpEntry → String → R.Bucket → Time → Time → RegisterLimiter × Bool
  spend l m ip b now at =
      let (ok, b') = R.allow_at b at in
      (record l { buckets = insert ip (record { limiter = b'; last_used = now }) m }, ok)

  pub allow_entry : RegisterLimiter → String → Option IpEntry → Time → Time → RegisterLimiter × Bool
  allow_entry l ip (some e) now at = spend l l.buckets ip e.limiter now at
  allow_entry l ip none now at =
      spend l (make_room l.burst at l.buckets) ip (R.fresh l.interval l.burst) now at

  unfoldable pub allow : RegisterLimiter → String → Time → Time → RegisterLimiter × Bool
  allow l ip now at = allow_entry l ip (lookup ip l.buckets) now at

  unfoldable pub remove : RegisterLimiter → String → RegisterLimiter
  remove l ip = record l { buckets = erase ip l.buckets }

  -- All that a run of `allow` computes with, below the bound on the addresses.
  unfoldable pub limiter_runs : Unit {0}
  unfolding spend make_room allow_entry allow
  limiter_runs = tt

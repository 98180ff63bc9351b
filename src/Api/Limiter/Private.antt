-- ===== src/Api/Limiter/Private.antt =====
-- A probe's allowance is its own.
use cqu_netprobe_gateway.Prelude.{
  String, Option, none, some, List, [], ◌∷◌, ◌==◌, ◌≡◌, ◌∙◌, ap, ap₂, refl, inl, inr, Bool-cases,
  eq_iff, if◌then◌else◌,
}
use cqu_netprobe_gateway.Prelude.GoMap.{lookup, lookup-insert, lookup-erase}
use cqu_netprobe_gateway.Prelude.Time.{Time}
use cqu_netprobe_gateway.RateLimit.{RateLimiter}
use cqu_netprobe_gateway.Api.Limiter.{
  AuthFailureEntry, Limiter, bucket_or_new, allow, remove, charge, charge_entry, allow_auth_failure,
  peek, auth_failure_blocked,
}
use cqu_netprobe_gateway.Api.Limiter.Bounded.{
  Call, allow_call, remove_call, failure_call, blocked_call, step, run,
}

module _ (R : RateLimiter) where
  -- A bucket that only this probe's calls reach, and that starts full.
  abbrev pub spend : R.Bucket → Option R.Bucket → R.Bucket
  spend full none = full
  spend full (some b) = b

  abbrev own_call : R.Bucket → String → Call → Option R.Bucket → Option R.Bucket
  own_call full p (allow_call q at) b = if q == p then some (R.allow_at (spend full b) at).1 else b
  own_call full p (remove_call q) b = if q == p then none else b
  own_call full p (failure_call ip now at) b = b
  own_call full p (blocked_call ip now at) b = b

  abbrev pub own_calls : R.Bucket → String → List Call → Option R.Bucket → Option R.Bucket
  own_calls full p [] b = b
  own_calls full p (c ∷ cs) b = own_calls full p cs (own_call full p c b)

  pub record SameSettings (l m : Limiter R) : Type 0 where
    pub interval_eq : l.interval ≡ m.interval
    pub burst_eq : l.burst ≡ m.burst

  pub charge_entry-buckets :
      (l : Limiter R) (ip : String) (o : Option (AuthFailureEntry R)) (now at : Time)
      → ((charge_entry R l ip o now at).0.buckets ≡ l.buckets)
        × SameSettings (charge_entry R l ip o now at).0 l
  unfolding charge_entry charge
  charge_entry-buckets l ip none now at = (refl, record { interval_eq = refl; burst_eq = refl })
  charge_entry-buckets l ip (some e) now at = (refl, record { interval_eq = refl; burst_eq = refl })

  pub peek-buckets :
      (l : Limiter R) (ip : String) (o : Option (AuthFailureEntry R)) (now at : Time)
      → ((peek R l ip o now at).0.buckets ≡ l.buckets) × SameSettings (peek R l ip o now at).0 l
  unfolding peek
  peek-buckets l ip none now at = (refl, record { interval_eq = refl; burst_eq = refl })
  peek-buckets l ip (some e) now at = (refl, record { interval_eq = refl; burst_eq = refl })

  abbrev full_bucket : Limiter R → R.Bucket
  full_bucket l = R.fresh l.interval l.burst

  bucket_or_new-eq :
      (l : Limiter R) (o : Option R.Bucket) → bucket_or_new R l o ≡ spend (full_bucket l) o
  bucket_or_new-eq l none = refl
  bucket_or_new-eq l (some b) = refl

  allow_own :
      (l : Limiter R) (p q : String) (at : Time)
      → lookup p (allow R l q at).0.buckets
        ≡ own_call (full_bucket l) p (allow_call q at) (lookup p l.buckets)
  unfolding allow
  allow_own l p q at = lookup-insert q p _ l.buckets ∙ elim (Bool-cases (q == p)) [
    | inl e ↦ rw e (
        ap (λ b. some (R.allow_at b at).1)
          (bucket_or_new-eq l (lookup q l.buckets)
            ∙ ap (λ k. spend (full_bucket l) (lookup k l.buckets)) ((eq_iff q p).0 e)))
    | inr e ↦ rw e refl
  ]

  step_own :
      (l : Limiter R) (p : String) (c : Call)
      → (lookup p (step R l c).buckets ≡ own_call (full_bucket l) p c (lookup p l.buckets))
        × SameSettings (step R l c) l
  unfolding allow remove allow_auth_failure auth_failure_blocked
  step_own l p (allow_call q at) =
      (allow_own l p q at, record { interval_eq = refl; burst_eq = refl })
  step_own l p (remove_call q) =
      (lookup-erase q p l.buckets, record { interval_eq = refl; burst_eq = refl })
  step_own l p (failure_call ip now at) =
      let (same, settings) = charge_entry-buckets l ip (lookup ip l.failures) now at in
      (ap (lookup p) same, settings)
  step_own l p (blocked_call ip now at) =
      let (same, settings) = peek-buckets l ip (lookup ip l.failures) now at in
      (ap (lookup p) same, settings)

  run_own :
      (l : Limiter R) (p : String) (cs : List Call)
      → (lookup p (run R l cs).buckets ≡ own_calls (full_bucket l) p cs (lookup p l.buckets))
        × SameSettings (run R l cs) l
  run_own l p [] = (refl, record { interval_eq = refl; burst_eq = refl })
  run_own l p (c ∷ cs) =
      let (here, same) = step_own l p c in
      let (rest, settings) = run_own (step R l c) p cs in
      (
        rest
            ∙ ap₂ (λ full b. own_calls full p cs b) (ap₂ R.fresh same.interval_eq same.burst_eq)
                here,
        record {
          interval_eq = settings.interval_eq ∙ same.interval_eq;
          burst_eq = settings.burst_eq ∙ same.burst_eq;
        },
      )

  -- Whether a probe may push depends on its own calls alone: the answer is that of a bucket which
  -- no other probe, and no failed authentication, ever touched.
  pub allow-run :
      (l : Limiter R) (p : String) (cs : List Call) (at : Time)
      → (allow R (run R l cs) p at).1
        ≡ (R.allow_at
            (spend (full_bucket l) (own_calls (full_bucket l) p cs (lookup p l.buckets)))
            at).0
  unfolding allow
  allow-run l p cs at =
      let (kept, same) = run_own l p cs in
      ap (λ b. (R.allow_at b at).0)
        (bucket_or_new-eq (run R l cs) (lookup p (run R l cs).buckets)
          ∙ ap₂ spend (ap₂ R.fresh same.interval_eq same.burst_eq) kept)

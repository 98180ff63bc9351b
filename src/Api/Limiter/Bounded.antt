-- ===== src/Api/Limiter/Bounded.antt =====
-- The table of addresses stays bounded.
use cqu_netprobe_gateway.Prelude.{
  ℕ, suc, ◌≤◌, ◌<◌, String, Option, none, some, List, [], ◌∷◌, ◌≡◌, ◌≢◌, refl, inl, inr, Bool-cases,
  length, arith, leb, true, subst, sym,
}
use cqu_netprobe_gateway.Prelude.GoMap.{
  GoMap, IsMap, lookup, insert-IsMap, erase-IsMap, length-insert-le, length-insert_present,
  length-erase-lt,
}
use cqu_netprobe_gateway.Prelude.Time.{Time, Duration}
use cqu_netprobe_gateway.RateLimit.{RateLimiter}
use cqu_netprobe_gateway.Api.Limiter.{
  AuthFailureEntry, Limiter, max_tracked_auth_failures, new_limiter, allow, remove, oldest_key,
  make_room, charge, charge_entry, allow_auth_failure, peek, auth_failure_blocked,
}
use cqu_netprobe_gateway.Api.Limiter.Oldest.{oldest_key-present}

-- One call of the limiter.
pub data Call : Type 0 where
  allow_call : String → Time → Call
  remove_call : String → Call
  failure_call blocked_call : String → Time → Time → Call

module _ (R : RateLimiter) where
  abbrev pub step : Limiter R → Call → Limiter R
  step l (allow_call probe_id at) = (allow R l probe_id at).0
  step l (remove_call probe_id) = remove R l probe_id
  step l (failure_call ip now at) = (allow_auth_failure R l ip now at).0
  step l (blocked_call ip now at) = (auth_failure_blocked R l ip now at).0

  abbrev pub run : Limiter R → List Call → Limiter R
  run l [] = l
  run l (c ∷ cs) = run (step l c) cs

  pub record IsWellFormed (l : Limiter R) : Type 0 where
    pub buckets_map : IsMap l.buckets
    pub failures_map : IsMap l.failures
    pub bounded : length l.failures ≤ max_tracked_auth_failures

  make_room-IsMap : (m : GoMap (AuthFailureEntry R)) → IsMap m → IsMap (make_room R m)
  unfolding make_room
  make_room-IsMap m h = elim (Bool-cases (leb max_tracked_auth_failures (length m))) [
    | inl full ↦ rw (full, make_room) (erase-IsMap (oldest_key R m) m h)
    | inr room ↦ rw (room, make_room) h
  ]

  make_room-lt :
      (m : GoMap (AuthFailureEntry R))
      → IsMap m
      → length m ≤ max_tracked_auth_failures
      → length (make_room R m) < max_tracked_auth_failures
  unfolding make_room
  make_room-lt m h le = elim (Bool-cases (leb max_tracked_auth_failures (length m))) [
    | inl full ↦
        rw (full, make_room)
          (omega (
            arith,
            length-erase-lt (oldest_key R m) m (oldest_key-present R m (not_empty m full)),
            le,
          ))
    | inr room ↦ rw (room, make_room) (ground arith)
  ]
    where
      not_empty :
          (m : GoMap (AuthFailureEntry R))
          → leb max_tracked_auth_failures (length m) ≡ true
          → m ≢ []
      not_empty [] full = ground arith
      not_empty (x ∷ m) full = ground arith

  charge_entry-IsWellFormed :
      (l : Limiter R) (ip : String) (o : Option (AuthFailureEntry R)) (now at : Time)
      → lookup ip l.failures ≡ o
      → IsWellFormed l
      → IsWellFormed (charge_entry R l ip o now at).0
  unfolding charge_entry charge
  charge_entry-IsWellFormed l ip (some e) now at q h = record {
    buckets_map = h.buckets_map;
    failures_map = insert-IsMap ip _ l.failures h.failures_map;
    bounded =
        subst (λ n. n ≤ max_tracked_auth_failures) (sym (length-insert_present ip _ e l.failures q))
          h.bounded;
  }
  charge_entry-IsWellFormed l ip none now at q h =
      let roomy = make_room R l.failures in
      record {
        buckets_map = h.buckets_map;
        failures_map = insert-IsMap ip _ roomy (make_room-IsMap l.failures h.failures_map);
        bounded =
            below _ _ (length-insert-le ip _ roomy)
              (make_room-lt l.failures h.failures_map h.bounded);
      }
    where
      below : (n m : ℕ) → n ≤ suc m → m < max_tracked_auth_failures → n ≤ max_tracked_auth_failures
      below n m a b = omega arith

  peek-IsWellFormed :
      (l : Limiter R) (ip : String) (o : Option (AuthFailureEntry R)) (now at : Time)
      → lookup ip l.failures ≡ o
      → IsWellFormed l
      → IsWellFormed (peek R l ip o now at).0
  unfolding peek
  peek-IsWellFormed l ip none now at q h = h
  peek-IsWellFormed l ip (some e) now at q h = record {
    buckets_map = h.buckets_map;
    failures_map = insert-IsMap ip _ l.failures h.failures_map;
    bounded =
        subst (λ n. n ≤ max_tracked_auth_failures) (sym (length-insert_present ip _ e l.failures q))
          h.bounded;
  }

  step-IsWellFormed : (l : Limiter R) (c : Call) → IsWellFormed l → IsWellFormed (step l c)
  unfolding allow remove allow_auth_failure auth_failure_blocked
  step-IsWellFormed l (allow_call probe_id at) h = record {
    buckets_map = insert-IsMap probe_id _ l.buckets h.buckets_map;
    failures_map = h.failures_map;
    bounded = h.bounded;
  }
  step-IsWellFormed l (remove_call probe_id) h = record {
    buckets_map = erase-IsMap probe_id l.buckets h.buckets_map;
    failures_map = h.failures_map;
    bounded = h.bounded;
  }
  step-IsWellFormed l (failure_call ip now at) h =
      charge_entry-IsWellFormed l ip (lookup ip l.failures) now at refl h
  step-IsWellFormed l (blocked_call ip now at) h =
      peek-IsWellFormed l ip (lookup ip l.failures) now at refl h

  run_from-IsWellFormed :
      (l : Limiter R) (cs : List Call) → IsWellFormed l → IsWellFormed (run l cs)
  run_from-IsWellFormed l [] h = h
  run_from-IsWellFormed l (c ∷ cs) h = run_from-IsWellFormed (step l c) cs (step-IsWellFormed l c h)

  -- However the limiter is used, at most 10000 addresses are tracked, each once.
  pub limiter_run-IsWellFormed :
      (interval : Duration) (burst : ℕ) (cs : List Call)
      → IsWellFormed (run (new_limiter R interval burst) cs)
  unfolding new_limiter
  limiter_run-IsWellFormed interval burst cs =
      run_from-IsWellFormed (new_limiter R interval burst) cs
        (record { buckets_map = tt; failures_map = tt; bounded = omega arith })

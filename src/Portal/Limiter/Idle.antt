-- ===== src/Portal/Limiter/Idle.antt =====
-- The table of registering addresses stays bounded.
use cqu_netprobe_gateway.Prelude.{
  ℕ, suc, ◌≤◌, ◌<◌, String, true, ◌==◌, Option, none, some, List, [], ◌∷◌, ◌≡◌, ◌≢◌, ◌⊎◌, refl, sym,
  ap, ◌∙◌, subst, inl, inr, Bool-cases, eq_iff, All, leb, length, arith,
}
use cqu_netprobe_gateway.Prelude.GoMap.{
  GoMap, IsMap, lookup, insert-IsMap, erase-IsMap, All-insert, All-erase, length-insert-le,
  length-insert_present, length-erase-lt, length-erase-le,
}
use cqu_netprobe_gateway.Prelude.Time.{Time, Duration, before}
use cqu_netprobe_gateway.RateLimit.{RateLimiter}
use cqu_netprobe_gateway.Portal.Limiter.{
  IpEntry, RegisterLimiter, max_tracked_register_ips, new_register_limiter, is_idle, older,
  victim_from, delete_found, evict_idle, make_room, spend, allow_entry, allow, remove,
}

-- One call of the limiter.
pub data Call : Type 0 where
  allow_call : String → Time → Time → Call
  remove_call : String → Call

-- An address is never empty.
abbrev pub HasAddress : Call → Type 0
HasAddress (allow_call ip now at) = ip ≢ ""
HasAddress (remove_call ip) = Unit

module _ (R : RateLimiter) where
  abbrev pub step : RegisterLimiter R → Call → RegisterLimiter R
  step l (allow_call ip now at) = (allow R l ip now at).0
  step l (remove_call ip) = remove R l ip

  abbrev pub run : RegisterLimiter R → List Call → RegisterLimiter R
  run l [] = l
  run l (c ∷ cs) = run (step l c) cs

  pub record IsWellFormed (m : GoMap (IpEntry R)) : Type 0 where
    pub is_map : IsMap m
    pub addresses : All (λ e. e.0 ≢ "") m
    pub bounded : length m ≤ max_tracked_register_ips

  -- What a scan finds: nothing in an empty table, else a key of the table or the one that it began
  -- with.
  abbrev Found : String × Time → GoMap (IpEntry R) → Option String → Type 0
  Found oldest m o =
      ((m ≡ []) × (oldest.0 ≡ ""))
      ⊎ ((k : String) × (o ≡ some k) × (((k ≡ oldest.0) × (k ≢ "")) ⊎ (lookup k m ≢ none)))

  older_cases :
      (oldest : String × Time) (k : String) (e : IpEntry R)
      → (older R oldest k e ≡ (k, e.last_used)) ⊎ ((older R oldest k e ≡ oldest) × (oldest.0 ≢ ""))
  older_cases oldest k e = elim (Bool-cases (oldest.0 == "")) [
    | inl q ↦ inl (rw q refl)
    | inr q ↦ elim (Bool-cases (before e.last_used oldest.1)) [
      | inl b ↦ inl (rw (q, b) refl)
      | inr b ↦ inr (rw (q, b) refl, ground (arith, eq_iff oldest.0 ""))
    ]
  ]

  skip :
      (k j : String) (e : IpEntry R) (m : GoMap (IpEntry R))
      → lookup j m ≢ none
      → lookup j ((k, e) ∷ m) ≢ none
  unfolding lookup
  skip k j e m h = ground (arith, h)

  here :
      (k j : String) (e : IpEntry R) (m : GoMap (IpEntry R)) → j ≡ k → lookup j ((k, e) ∷ m) ≢ none
  unfolding lookup
  here k j e m h = ground (arith, eq_iff k j, h)

  widen :
      (oldest : String × Time) (k : String) (e : IpEntry R) (m : GoMap (IpEntry R))
      (o : Option String)
      → k ≢ ""
      → Found (older R oldest k e) m o
      → Found oldest ((k, e) ∷ m) o
  widen oldest k e m o ne (inl (empty, none_yet)) = elim (older_cases oldest k e) [
    | inl q ↦ absurd (ne (ap (λ (x : String × Time). x.0) (sym q) ∙ none_yet))
    | inr (q, some_yet) ↦ absurd (some_yet (ap (λ (x : String × Time). x.0) (sym q) ∙ none_yet))
  ]
  widen oldest k e m o ne (inr (j, f, inr present)) = inr (j, f, inr (skip k j e m present))
  widen oldest k e m o ne (inr (j, f, inl (began, given))) = elim (older_cases oldest k e) [
    | inl q ↦ inr (j, f, inr (here k j e m (began ∙ ap (λ (x : String × Time). x.0) q)))
    | inr (q, some_yet) ↦ inr (j, f, inl (began ∙ ap (λ (x : String × Time). x.0) q, given))
  ]

  victim_from-Found :
      (burst : ℕ) (at : Time) (oldest : String × Time) (m : GoMap (IpEntry R))
      → All (λ e. e.0 ≢ "") m
      → Found oldest m (victim_from R burst at oldest m)
  unfolding victim_from
  victim_from-Found burst at oldest [] h = elim (Bool-cases (oldest.0 == "")) [
    | inl q ↦ inl (refl, (eq_iff oldest.0 "").0 q)
    | inr q ↦
        inr (oldest.0, rw (victim_from, q) refl, inl (refl, ground (arith, eq_iff oldest.0 "")))
  ]
  victim_from-Found burst at oldest ((k, e) ∷ m) h = elim (Bool-cases (is_idle R burst at e)) [
    | inl idle ↦ inr (k, rw (victim_from, idle) refl, inr (here k k e m refl))
    | inr busy ↦
        rw (victim_from, busy)
          (widen oldest k e m _ h.0 (victim_from-Found burst at (older R oldest k e) m h.1))
  ]

  evict_idle-lt :
      (burst : ℕ) (at : Time) (m : GoMap (IpEntry R))
      → All (λ e. e.0 ≢ "") m
      → m ≢ []
      → length (evict_idle R burst at m) < length m
  unfolding evict_idle
  evict_idle-lt burst at m h ne = elim (victim_from-Found burst at ("", 0) m h) [
    | inl (empty, _) ↦ absurd (ne empty)
    | inr (k, f, inl (began, given)) ↦ absurd (given began)
    | inr (k, f, inr present) ↦ rw (evict_idle, f) (length-erase-lt k m present)
  ]

  delete_found-kept :
      (m : GoMap (IpEntry R)) (o : Option String)
      → IsMap m
      → All (λ e. e.0 ≢ "") m
      → IsMap (delete_found R m o) × All (λ e. e.0 ≢ "") (delete_found R m o)
  delete_found-kept m none h a = (h, a)
  delete_found-kept m (some k) h a = (erase-IsMap k m h, All-erase (λ e. e.0 ≢ "") k m a)

  make_room-kept :
      (burst : ℕ) (at : Time) (m : GoMap (IpEntry R))
      → IsWellFormed m
      → IsMap (make_room R burst at m)
        × All (λ e. e.0 ≢ "") (make_room R burst at m)
        × (length (make_room R burst at m) < max_tracked_register_ips)
  unfolding make_room evict_idle
  make_room-kept burst at m w = elim (Bool-cases (leb max_tracked_register_ips (length m))) [
    | inl full ↦
        let kept = delete_found-kept m (victim_from R burst at ("", 0) m) w.is_map w.addresses in
        rw (make_room, full)
          (
            kept.0,
            kept.1,
            less_still _ (evict_idle-lt burst at m w.addresses (not_empty m full)) w.bounded,
          )
    | inr room ↦ rw (make_room, room) (w.is_map, w.addresses, ground arith)
  ]
    where
      less_still :
          (n : ℕ)
          → n < length m
          → length m ≤ max_tracked_register_ips
          → n < max_tracked_register_ips
      less_still n a b = omega arith

      not_empty : (m : GoMap (IpEntry R)) → leb max_tracked_register_ips (length m) ≡ true → m ≢ []
      not_empty [] full = ground arith
      not_empty (x ∷ m) full = ground arith

  allow_entry-IsWellFormed :
      (l : RegisterLimiter R) (ip : String) (o : Option (IpEntry R)) (now at : Time)
      → lookup ip l.buckets ≡ o
      → ip ≢ ""
      → IsWellFormed l.buckets
      → IsWellFormed (allow_entry R l ip o now at).0.buckets
  unfolding allow_entry spend
  allow_entry-IsWellFormed l ip (some e) now at q ne w = record {
    is_map = insert-IsMap ip _ l.buckets w.is_map;
    addresses = All-insert (λ e. e.0 ≢ "") ip _ l.buckets ne w.addresses;
    bounded =
        subst (λ n. n ≤ max_tracked_register_ips) (sym (length-insert_present ip _ e l.buckets q))
          w.bounded;
  }
  allow_entry-IsWellFormed l ip none now at q ne w =
      let roomy = make_room R l.burst at l.buckets in
      let (m, a, lt) = make_room-kept l.burst at l.buckets w in
      record {
        is_map = insert-IsMap ip _ roomy m;
        addresses = All-insert (λ e. e.0 ≢ "") ip _ roomy ne a;
        bounded = below _ _ (length-insert-le ip _ roomy) lt;
      }
    where
      below : (n k : ℕ) → n ≤ suc k → k < max_tracked_register_ips → n ≤ max_tracked_register_ips
      below n k a b = omega arith

  step-IsWellFormed :
      (l : RegisterLimiter R) (c : Call)
      → HasAddress c
      → IsWellFormed l.buckets
      → IsWellFormed (step l c).buckets
  unfolding allow remove
  step-IsWellFormed l (allow_call ip now at) h w =
      allow_entry-IsWellFormed l ip (lookup ip l.buckets) now at refl h w
  step-IsWellFormed l (remove_call ip) h w = record {
    is_map = erase-IsMap ip l.buckets w.is_map;
    addresses = All-erase (λ e. e.0 ≢ "") ip l.buckets w.addresses;
    bounded = omega (arith, length-erase-le ip l.buckets, w.bounded);
  }

  run_from :
      (l : RegisterLimiter R) (cs : List Call)
      → All HasAddress cs
      → IsWellFormed l.buckets
      → IsWellFormed (run l cs).buckets
  run_from l [] h w = w
  run_from l (c ∷ cs) h w = run_from (step l c) cs h.1 (step-IsWellFormed l c h.0 w)

  -- However registrations arrive, each from an address that is not empty, at most 10000 addresses
  -- are tracked, each once.
  pub register_run-IsWellFormed :
      (interval : Duration) (burst : ℕ) (cs : List Call)
      → All HasAddress cs
      → IsWellFormed (run (new_register_limiter R interval burst) cs).buckets
  unfolding new_register_limiter
  register_run-IsWellFormed interval burst cs h =
      run_from (new_register_limiter R interval burst) cs h
        (record { is_map = tt; addresses = tt; bounded = omega arith })

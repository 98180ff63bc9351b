-- ===== src/Api/Limiter/Oldest.antt =====
-- Which address loses its counter when the table is full.
use cqu_netprobe_gateway.Prelude.{
  ◌≤◌, ◌<◌, String, none, some, [], ◌∷◌, ◌==◌, ◌≡◌, ◌≢◌, ◌⊎◌, ◌∙◌, sym, subst, refl, inl, inr,
  Bool-cases, All, length, arith, leb, true, false, eq_iff,
}
use cqu_netprobe_gateway.Prelude.GoMap.{GoMap, IsMap, lookup, lookup-erase_other, All-lookup}
use cqu_netprobe_gateway.Prelude.Time.{Time, before}
use cqu_netprobe_gateway.RateLimit.{RateLimiter}
use cqu_netprobe_gateway.Api.Limiter.{
  AuthFailureEntry, max_tracked_auth_failures, oldest_from, oldest_key, make_room,
}

module _ (R : RateLimiter) where
  abbrev Entries : Type 0
  Entries = GoMap (AuthFailureEntry R)

  -- An entry under a key with a stamp.
  abbrev Holds : String → Time → Entries → Type 0
  Holds k t [] = ⊥
  Holds k t ((j, c) ∷ m) = ((j ≡ k) × (c.last_used ≡ t)) ⊎ Holds k t m

  -- The key r stands for an entry, or for the best one so far, that no entry is older than.
  record IsOldest (best : String × Time) (m : Entries) (r : String) : Type 0 where
    stamp : Time
    le_best : stamp ≤ best.1
    le_all : All (λ e. stamp ≤ e.1.last_used) m
    found : ((best.0 ≡ r) × (best.1 ≡ stamp)) ⊎ Holds r stamp m

  took :
      (best : String × Time) (k : String) (c : AuthFailureEntry R) (m : Entries) (r : String)
      → before c.last_used best.1 ≡ true
      → IsOldest (k, c.last_used) m r
      → IsOldest best ((k, c) ∷ m) r
  took best k c m r older h = record {
    stamp = h.stamp;
    le_best = ground (arith, h.le_best);
    le_all = (h.le_best, h.le_all);
    found = inr h.found;
  }

  kept :
      (best : String × Time) (k : String) (c : AuthFailureEntry R) (m : Entries) (r : String)
      → before c.last_used best.1 ≡ false
      → IsOldest best m r
      → IsOldest best ((k, c) ∷ m) r
  kept best k c m r newer h = record {
    stamp = h.stamp;
    le_best = h.le_best;
    le_all = (ground (arith, h.le_best), h.le_all);
    found = elim h.found [ inl b ↦ inl b | inr e ↦ inr (inr e) ];
  }

  oldest_from-IsOldest :
      (best : String × Time) (m : Entries) → IsOldest best m (oldest_from R best m)
  unfolding oldest_from
  oldest_from-IsOldest best [] = record {
    stamp = best.1;
    le_best = omega arith;
    le_all = tt;
    found = inl (refl, refl);
  }
  oldest_from-IsOldest best ((k, c) ∷ m) = elim (Bool-cases (before c.last_used best.1)) [
    | inl older ↦
        rw (older, oldest_from) (took best k c m _ older (oldest_from-IsOldest (k, c.last_used) m))
    | inr newer ↦ rw (newer, oldest_from) (kept best k c m _ newer (oldest_from-IsOldest best m))
  ]

  -- No entry is older than the one that the scan finds.
  oldest_key_stamp :
      (m : Entries)
      → m ≢ []
      → (t : Time) × All (λ e. t ≤ e.1.last_used) m × Holds (oldest_key R m) t m
  unfolding oldest_key
  oldest_key_stamp [] ne = absurd (ne refl)
  oldest_key_stamp ((k, c) ∷ m) ne =
      let h = oldest_from-IsOldest (k, c.last_used) m in (h.stamp, (h.le_best, h.le_all), h.found)

  Holds-present : (m : Entries) (k : String) (t : Time) → Holds k t m → lookup k m ≢ none
  unfolding lookup
  Holds-present [] k t held = absurd held
  Holds-present ((j, c) ∷ m) k t (inl (same, at)) = ground (arith, eq_iff j k, same)
  Holds-present ((j, c) ∷ m) k t (inr held) = ground (arith, Holds-present m k t held)

  -- The entry that is evicted is one of the table.
  pub oldest_key-present : (m : Entries) → m ≢ [] → lookup (oldest_key R m) m ≢ none
  oldest_key-present m ne =
      let (t, le, held) = oldest_key_stamp m ne in Holds-present m (oldest_key R m) t held

  Holds-lookup :
      (m : Entries) (k : String) (t : Time) (e : AuthFailureEntry R)
      → IsMap m
      → Holds k t m
      → lookup k m ≡ some e
      → e.last_used ≡ t
  unfolding lookup
  Holds-lookup [] k t e h held found = absurd held
  Holds-lookup ((j, c) ∷ m) k t e h (inl (same, at)) found =
      ground (arith, eq_iff j k, same, at, found)
  Holds-lookup ((j, c) ∷ m) k t e h (inr held) found = elim (Bool-cases (j == k)) [
    | inl q ↦ absurd (not_here m held (subst (λ i. All (λ y. i ≢ y.0) m) ((eq_iff j k).0 q) h.0))
    | inr q ↦ Holds-lookup m k t e h.1 held (rw (q, lookup) at found)
  ]
    where
      not_here : (m : Entries) → Holds k t m → ¬ All (λ y. k ≢ y.0) m
      not_here [] held a = held
      not_here ((j, c) ∷ m) (inl (same, at)) a = a.0 (sym same)
      not_here ((j, c) ∷ m) (inr held) a = not_here m held a.1

  not_oldest :
      (m : Entries) (old young : String) (e f : AuthFailureEntry R)
      → IsMap m
      → lookup old m ≡ some e
      → lookup young m ≡ some f
      → e.last_used < f.last_used
      → oldest_key R m ≢ young
  unfolding lookup
  not_oldest m old young e f h a b lt q =
      let (t, le, held) = oldest_key_stamp m (not_empty m a) in
      let here = Holds-lookup m young t f h (subst (λ k. Holds k t m) q held) b in
      omega (arith, All-lookup (λ e. t ≤ e.1.last_used) old e m a le, here, lt)
    where
      not_empty : (m : Entries) → lookup old m ≡ some e → m ≢ []
      not_empty [] a = ground (arith, a)
      not_empty (x ∷ m) a = ground arith

  pub make_room-keeps :
      (m : Entries) (old young : String) (e f : AuthFailureEntry R)
      → IsMap m
      → lookup old m ≡ some e
      → lookup young m ≡ some f
      → e.last_used < f.last_used
      → lookup young (make_room R m) ≡ some f
  unfolding make_room
  make_room-keeps m old young e f h a b lt =
      elim (Bool-cases (leb max_tracked_auth_failures (length m))) [
        | inl full ↦
            rw (full, make_room)
              (lookup-erase_other (oldest_key R m) young m (not_oldest m old young e f h a b lt)
                ∙ b)
        | inr room ↦ rw (room, make_room) b
      ]

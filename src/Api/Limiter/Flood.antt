-- ===== src/Api/Limiter/Flood.antt =====
-- How many failures of other addresses a counter outlives.
use cqu_netprobe_gateway.Prelude.{
  ℕ, suc, ◌+◌, ◌≤◌, ◌<◌, String, Option, none, some, List, [], ◌∷◌, ◌==◌, ◌≡◌, ◌≢◌, ◌∙◌, sym, subst,
  ap, refl, inl, inr, Bool-cases, All, length, arith, leb, ltb, true, eq_iff, if◌then◌else◌,
}
use cqu_netprobe_gateway.Prelude.GoMap.{
  GoMap, IsMap, lookup, insert, erase, lookup-insert_other, lookup-erase_absent, All-lookup,
  insert-IsMap, erase-IsMap, length-insert-le, length-insert_present, length-erase-lt,
}
use cqu_netprobe_gateway.Prelude.Time.{Time}
use cqu_netprobe_gateway.RateLimit.{RateLimiter}
use cqu_netprobe_gateway.Api.Limiter.{
  AuthFailureEntry, Limiter, max_tracked_auth_failures, allow, remove, oldest_key, make_room,
  charge, charge_entry, allow_auth_failure, peek, auth_failure_blocked,
}
use cqu_netprobe_gateway.Api.Limiter.Bounded.{
  Call, allow_call, remove_call, failure_call, blocked_call, step, run,
}
use cqu_netprobe_gateway.Api.Limiter.Oldest.{make_room-keeps, oldest_key-present}

-- A call that is not made for this address.
abbrev pub IsOther : String → Call → Type 0
IsOther young (failure_call ip now at) = ip ≢ young
IsOther young (blocked_call ip now at) = ip ≢ young
IsOther young (allow_call probe_id at) = Unit
IsOther young (remove_call probe_id) = Unit

module _ (R : RateLimiter) where
  abbrev Entries : Type 0
  Entries = GoMap (AuthFailureEntry R)

  -- How many counters were last used before a time.
  abbrev pub older : Time → Entries → ℕ
  older t [] = 0
  older t ((k, c) ∷ m) = (if ltb c.last_used t then 1 else 0) + older t m

  older-insert :
      (t : Time) (k : String) (v : AuthFailureEntry R) (m : Entries)
      → older t m ≤ suc (older t (insert k v m))
  unfolding insert
  older-insert t k v [] = omega arith
  older-insert t k v ((j, c) ∷ m) = ground (arith, older-insert t k v m)

  older-insert_absent :
      (t : Time) (k : String) (v : AuthFailureEntry R) (m : Entries)
      → lookup k m ≡ none
      → older t m ≤ older t (insert k v m)
  unfolding insert lookup
  older-insert_absent t k v [] h = ground arith
  older-insert_absent t k v ((j, c) ∷ m) h = ground (arith, older-insert_absent t k v m)

  erase_absent : (k : String) (m : Entries) → All (λ y. k ≢ y.0) m → erase k m ≡ m
  unfolding erase
  erase_absent k [] a = refl
  erase_absent k ((j, c) ∷ m) a = elim (Bool-cases (j == k)) [
    | inl e ↦ absurd (a.0 (sym ((eq_iff j k).0 e)))
    | inr e ↦ rw e (ap (λ l. (j, c) ∷ l) (erase_absent k m a.1))
  ]

  older-erase :
      (t : Time) (k : String) (m : Entries) → IsMap m → older t m ≤ suc (older t (erase k m))
  unfolding erase
  older-erase t k [] h = omega arith
  older-erase t k ((j, c) ∷ m) h = elim (Bool-cases (j == k)) [
    | inl e ↦
        rw (e, erase)
          (gone (erase_absent k m (subst (λ i. All (λ y. i ≢ y.0) m) ((eq_iff j k).0 e) h.0)))
    | inr e ↦ rw (e, erase) (omega (arith, older-erase t k m h.1))
  ]
    where
      gone : erase k m ≡ m → older t ((j, c) ∷ m) ≤ suc (older t (erase k m))
      gone q = ground (arith, ap (older t) q)

  -- Where some counter is older, one is found.
  older-found :
      (t : Time) (m : Entries)
      → IsMap m
      → 1 ≤ older t m
      → (k : String) × (e : AuthFailureEntry R) × (lookup k m ≡ some e) × (e.last_used < t)
  unfolding lookup
  older-found t [] h n = absurd (omega (arith, n))
  older-found t ((j, c) ∷ m) h n = elim (Bool-cases (ltb c.last_used t)) [
    | inl q ↦ (j, c, ground (arith, eq_iff j j), ground (arith, q))
    | inr q ↦
        let (k, e, at, lt) = older-found t m h.1 (ground (arith, q, n)) in (k, e, behind k e at, lt)
  ]
    where
      behind :
          (k : String) (e : AuthFailureEntry R)
          → lookup k m ≡ some e
          → (if j == k then some c else lookup k m) ≡ some e
      behind k e at = ground (arith, eq_iff j k, All-lookup (λ y. j ≢ y.0) k e m at h.0, at)

  -- The counter is there, and the places and the older counters last for so many more calls.
  record Lasts (young : String) (f : AuthFailureEntry R) (calls : ℕ) (m : Entries) : Type 0 where
    is_map : IsMap m
    held : lookup young m ≡ some f
    enough : length m + calls ≤ max_tracked_auth_failures + older f.last_used m

  replaced-Lasts :
      (young ip : String) (f own v : AuthFailureEntry R) (calls : ℕ) (m : Entries)
      → ip ≢ young
      → lookup ip m ≡ some own
      → Lasts young f (suc calls) m
      → Lasts young f calls (insert ip v m)
  replaced-Lasts young ip f own v calls m ne at w = record {
    is_map = insert-IsMap ip v m w.is_map;
    held = lookup-insert_other ip young v m ne ∙ w.held;
    enough =
        omega
          (arith, w.enough, length-insert_present ip v own m at, older-insert f.last_used ip v m);
  }

  added-Lasts :
      (young ip : String) (f v : AuthFailureEntry R) (calls : ℕ) (m : Entries)
      → ip ≢ young
      → lookup ip m ≡ none
      → Lasts young f (suc calls) m
      → Lasts young f calls (insert ip v (make_room R m))
  unfolding make_room
  added-Lasts young ip f v calls m ne at w =
      elim (Bool-cases (leb max_tracked_auth_failures (length m))) [
        | inl full ↦ rw (full, make_room) (evicted full)
        | inr room ↦
            rw (room, make_room)
              (record {
                is_map = insert-IsMap ip v m w.is_map;
                held = lookup-insert_other ip young v m ne ∙ w.held;
                enough = omega (
                  arith,
                  w.enough,
                  length-insert-le ip v m,
                  older-insert_absent f.last_used ip v m at,
                );
              })
      ]
    where
      not_empty : (n : Entries) → 1 ≤ length n → n ≢ []
      not_empty [] le = absurd (omega (arith, le))
      not_empty (x ∷ n) le = ground arith

      evicted :
          leb max_tracked_auth_failures (length m) ≡ true
          → Lasts young f calls (insert ip v (erase (oldest_key R m) m))
      evicted full =
          let rest = erase (oldest_key R m) m in
          let (old, e, found, lt) =
            older-found f.last_used m w.is_map (ground (arith, full, w.enough)) in
          let kept : lookup young rest ≡ some f =
            evict_kept full (make_room-keeps R m old young e f w.is_map found w.held lt) in
          record {
            is_map = insert-IsMap ip v rest (erase-IsMap (oldest_key R m) m w.is_map);
            held = lookup-insert_other ip young v rest ne ∙ kept;
            enough = omega (
              arith,
              w.enough,
              length-insert-le ip v rest,
              length-erase-lt (oldest_key R m) m
                  (oldest_key-present R m (not_empty m (ground (arith, full)))),
              older-erase f.last_used (oldest_key R m) m w.is_map,
              older-insert_absent f.last_used ip v rest
                  (lookup-erase_absent (oldest_key R m) ip m at),
            );
          }
        where
          evict_kept :
              leb max_tracked_auth_failures (length m) ≡ true
              → lookup young (make_room R m) ≡ some f
              → lookup young (erase (oldest_key R m) m) ≡ some f
          evict_kept full h = rw (full, make_room) at h

  charge_entry-Lasts :
      (l : Limiter R) (young ip : String) (f : AuthFailureEntry R) (calls : ℕ)
      (o : Option (AuthFailureEntry R)) (now at : Time)
      → ip ≢ young
      → lookup ip l.failures ≡ o
      → Lasts young f (suc calls) l.failures
      → Lasts young f calls (charge_entry R l ip o now at).0.failures
  unfolding charge_entry charge
  charge_entry-Lasts l young ip f calls none now at ne q w =
      added-Lasts young ip f _ calls l.failures ne q w
  charge_entry-Lasts l young ip f calls (some own) now at ne q w =
      replaced-Lasts young ip f own _ calls l.failures ne q w

  spare :
      (young : String) (f : AuthFailureEntry R) (calls : ℕ) (m : Entries)
      → Lasts young f (suc calls) m
      → Lasts young f calls m
  spare young f calls m w = record {
    is_map = w.is_map;
    held = w.held;
    enough = omega (arith, w.enough);
  }

  peek-Lasts :
      (l : Limiter R) (young ip : String) (f : AuthFailureEntry R) (calls : ℕ)
      (o : Option (AuthFailureEntry R)) (now at : Time)
      → ip ≢ young
      → lookup ip l.failures ≡ o
      → Lasts young f (suc calls) l.failures
      → Lasts young f calls (peek R l ip o now at).0.failures
  unfolding peek
  peek-Lasts l young ip f calls none now at ne q w = spare young f calls l.failures w
  peek-Lasts l young ip f calls (some own) now at ne q w =
      replaced-Lasts young ip f own _ calls l.failures ne q w

  step-Lasts :
      (l : Limiter R) (young : String) (f : AuthFailureEntry R) (calls : ℕ) (c : Call)
      → IsOther young c
      → Lasts young f (suc calls) l.failures
      → Lasts young f calls (step R l c).failures
  unfolding allow remove allow_auth_failure auth_failure_blocked
  step-Lasts l young f calls (allow_call probe_id at) o w = spare young f calls l.failures w
  step-Lasts l young f calls (remove_call probe_id) o w = spare young f calls l.failures w
  step-Lasts l young f calls (failure_call ip now at) o w =
      charge_entry-Lasts l young ip f calls (lookup ip l.failures) now at o refl w
  step-Lasts l young f calls (blocked_call ip now at) o w =
      peek-Lasts l young ip f calls (lookup ip l.failures) now at o refl w

  run-Lasts :
      (l : Limiter R) (young : String) (f : AuthFailureEntry R) (cs : List Call)
      → All (IsOther young) cs
      → Lasts young f (length cs) l.failures
      → lookup young (run R l cs).failures ≡ some f
  run-Lasts l young f [] o w = w.held
  run-Lasts l young f (c ∷ cs) o w =
      run-Lasts (step R l c) young f cs o.1 (step-Lasts l young f (length cs) c o.0 w)

  -- The counter of an address stays untouched through a flood of calls for other addresses, as long as
  -- these are no more than the free places of the table and the counters that were last used before
  -- it.
  pub run_flooded :
      (l : Limiter R) (young : String) (f : AuthFailureEntry R) (cs : List Call)
      → IsMap l.failures
      → lookup young l.failures ≡ some f
      → All (IsOther young) cs
      → length l.failures + length cs ≤ max_tracked_auth_failures + older f.last_used l.failures
      → lookup young (run R l cs).failures ≡ some f
  run_flooded l young f cs h at others enough =
      run-Lasts l young f cs others (record { is_map = h; held = at; enough = enough })

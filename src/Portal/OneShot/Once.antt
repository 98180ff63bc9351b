-- ===== src/Portal/OneShot/Once.antt =====
-- A token is shown at most once, and where it leads back to stays on this site.
use cqu_netprobe_gateway.Prelude.{
  ◌+◌, ◌≤◌, String, Bool, true, false, not, ◌&&◌, Option, none, some, List, [], ◌∷◌, ◌≡◌, ◌≢◌, ◌⊎◌,
  ◌∙◌, ap, refl, inl, inr, Bool-cases, All, arith, if◌then◌else◌,
}
use cqu_netprobe_gateway.Prelude.GoMap.{
  IsMap, lookup, insert-IsMap, erase-IsMap, lookup-insert_here, lookup-insert_other,
  lookup-erase_here, lookup-erase_other, lookup-erase_absent,
}
use cqu_netprobe_gateway.Prelude.GoMap.Retain.{retain, keep_if, retain-IsMap, lookup-retain}
use cqu_netprobe_gateway.Prelude.Time.{Time, after}
use cqu_netprobe_gateway.Portal.OneShot.{
  OneShot, OneShotStore, is_path_char, is_slash, match_segments, match_back_path, safe_back_path,
  is_current, put_pair, redeem, take_pair,
}

-- One call of the store.
pub data Call : Type 0 where
  put_call : Option String → String → String → String → Time → Call
  take_call : String → Time → Call

abbrev pub step : OneShotStore → Call → OneShotStore
step o (put_call slot probe_id value back now) = (put_pair o slot probe_id value back now).0
step o (take_call slot now) = (take_pair o slot now).0

abbrev pub run : OneShotStore → List Call → OneShotStore
run o [] = o
run o (c ∷ cs) = run (step o c) cs

-- A call that does not draw this slot anew.
abbrev pub Spares : String → Call → Type 0
Spares slot (put_call (some other) probe_id value back now) = other ≢ slot
Spares slot (put_call none probe_id value back now) = Unit
Spares slot (take_call other now) = Unit

redeem_absent :
    (o : OneShotStore) (slot other : String) (now : Time) (v : Option OneShot)
    → lookup slot o.slots ≡ none
    → lookup slot (redeem o other now v).0.slots ≡ none
unfolding redeem
redeem_absent o slot other now none e = e
redeem_absent o slot other now (some v) e = lookup-erase_absent other slot o.slots e

redeem-IsMap :
    (o : OneShotStore) (other : String) (now : Time) (v : Option OneShot)
    → IsMap o.slots
    → IsMap (redeem o other now v).0.slots
unfolding redeem
redeem-IsMap o other now none h = h
redeem-IsMap o other now (some v) h = erase-IsMap other o.slots h

step_absent :
    (o : OneShotStore) (slot : String) (c : Call)
    → IsMap o.slots
    → Spares slot c
    → lookup slot o.slots ≡ none
    → IsMap (step o c).slots × (lookup slot (step o c).slots ≡ none)
unfolding put_pair take_pair
step_absent o slot (put_call none probe_id value back now) h s e = (h, e)
step_absent o slot (put_call (some other) probe_id value back now) h s e = (
  insert-IsMap other _ (retain (is_current now) o.slots) (retain-IsMap (is_current now) o.slots h),
  lookup-insert_other other slot _ (retain (is_current now) o.slots) s
      ∙ lookup-retain (is_current now) slot o.slots h
      ∙ ap (keep_if (is_current now)) e,
)
step_absent o slot (take_call other now) h s e = (
  redeem-IsMap o other now (lookup other o.slots) h,
  redeem_absent o slot other now (lookup other o.slots) e,
)

run_absent :
    (o : OneShotStore) (slot : String) (cs : List Call)
    → IsMap o.slots
    → All (Spares slot) cs
    → lookup slot o.slots ≡ none
    → lookup slot (run o cs).slots ≡ none
run_absent o slot [] h s e = e
run_absent o slot (c ∷ cs) h s e =
    let next = step_absent o slot c h s.0 e in run_absent (step o c) slot cs next.0 s.1 next.1

redeem_gone :
    (o : OneShotStore) (slot : String) (now : Time) (v : Option OneShot)
    → lookup slot o.slots ≡ v
    → lookup slot (redeem o slot now v).0.slots ≡ none
unfolding redeem
redeem_gone o slot now none e = e
redeem_gone o slot now (some v) e = lookup-erase_here slot o.slots

-- Once a slot was redeemed, in time or too late, no later call redeems it again, unless its name is
-- drawn anew.
pub take_pair_once :
    (o : OneShotStore) (slot : String) (now later : Time) (cs : List Call)
    → IsMap o.slots
    → All (Spares slot) cs
    → (take_pair (run (take_pair o slot now).0 cs) slot later).1 ≡ none
unfolding take_pair redeem
take_pair_once o slot now later cs h s =
    ap (λ v. (redeem (run (take_pair o slot now).0 cs) slot later v).1)
      (run_absent (take_pair o slot now).0 slot cs (redeem-IsMap o slot now (lookup slot o.slots) h)
        s (redeem_gone o slot now (lookup slot o.slots) refl))

-- A call that leaves this slot alone: it neither draws nor redeems it, and where it stores another
-- token it comes no later than the deadline.
abbrev pub Passes : String → Time → Call → Type 0
Passes slot deadline (put_call (some other) probe_id value back now) =
    (other ≢ slot) × (now ≤ deadline)
Passes slot deadline (put_call none probe_id value back now) = Unit
Passes slot deadline (take_call other now) = other ≢ slot

keep_current :
    (v : OneShot) (now : Time) → now ≤ v.expires → keep_if (is_current now) (some v) ≡ some v
keep_current v now le = ground (arith, le)

redeem_other :
    (o : OneShotStore) (slot other : String) (now : Time) (v : Option OneShot)
    → other ≢ slot
    → lookup slot (redeem o other now v).0.slots ≡ lookup slot o.slots
unfolding redeem
redeem_other o slot other now none ne = refl
redeem_other o slot other now (some v) ne = lookup-erase_other other slot o.slots ne

step_kept :
    (o : OneShotStore) (slot : String) (v : OneShot) (c : Call)
    → IsMap o.slots
    → Passes slot v.expires c
    → lookup slot o.slots ≡ some v
    → IsMap (step o c).slots × (lookup slot (step o c).slots ≡ some v)
unfolding put_pair take_pair
step_kept o slot v (put_call none probe_id value back now) h p e = (h, e)
step_kept o slot v (put_call (some other) probe_id value back now) h p e = (
  insert-IsMap other _ (retain (is_current now) o.slots) (retain-IsMap (is_current now) o.slots h),
  lookup-insert_other other slot _ (retain (is_current now) o.slots) p.0
      ∙ lookup-retain (is_current now) slot o.slots h
      ∙ ap (keep_if (is_current now)) e
      ∙ keep_current v now p.1,
)
step_kept o slot v (take_call other now) h p e = (
  redeem-IsMap o other now (lookup other o.slots) h,
  redeem_other o slot other now (lookup other o.slots) p ∙ e,
)

run_kept :
    (o : OneShotStore) (slot : String) (v : OneShot) (cs : List Call)
    → IsMap o.slots
    → All (Passes slot v.expires) cs
    → lookup slot o.slots ≡ some v
    → lookup slot (run o cs).slots ≡ some v
run_kept o slot v [] h p e = e
run_kept o slot v (c ∷ cs) h p e =
    let (map, kept) = step_kept o slot v c h p.0 e in run_kept (step o c) slot v cs map p.1 kept

-- Through any calls on other slots within its window, a token stays redeemable with its own probe and
-- value; it is redeemed at any time up to the end of the window, and not after it.
pub take_pair-put_pair :
    (o : OneShotStore) (slot probe_id value back : String) (put_at now : Time) (cs : List Call)
    → IsMap o.slots
    → All (Passes slot (put_at + o.ttl)) cs
    → (take_pair (run (put_pair o (some slot) probe_id value back put_at).0 cs) slot now).1 ≡ (
        if after now (put_at + o.ttl)
        then none
        else some (record {
          probe_id = probe_id;
          value = value;
          back = safe_back_path back;
          expires = put_at + o.ttl;
        }))
unfolding take_pair put_pair redeem
take_pair-put_pair o slot probe_id value back put_at now cs h p =
    let kept = retain (is_current put_at) o.slots in
    ap (λ v. (redeem (run (put_pair o (some slot) probe_id value back put_at).0 cs) slot now v).1)
      (run_kept (put_pair o (some slot) probe_id value back put_at).0 slot
        (record {
          probe_id = probe_id;
          value = value;
          back = safe_back_path back;
          expires = put_at + o.ttl;
        })
        cs (insert-IsMap slot _ kept (retain-IsMap (is_current put_at) o.slots h)) p
        (lookup-insert_here slot _ kept))

-- The rest of a path behind a slash or a character: plain characters and slashes, no two of them
-- in a row.
abbrev IsPlainAfter : Bool → String → Type 0
IsPlainAfter after_slash String.[] = Unit
IsPlainAfter after_slash (String.◌∷◌ c s) =
    ((is_path_char c ≡ true) × IsPlainAfter false s)
    ⊎ ((is_slash c ≡ true) × (after_slash ≡ false) × IsPlainAfter true s)

-- A slash, and then a plain path: no second slash and no backslash behind it.
abbrev pub IsPlainPath : String → Type 0
IsPlainPath String.[] = ⊥
IsPlainPath (String.◌∷◌ c s) = (is_slash c ≡ true) × IsPlainAfter true s

match_segments-IsPlainAfter : (b : Bool) (s : String) → match_segments b s ≡ true → IsPlainAfter b s
unfolding match_segments
match_segments-IsPlainAfter b String.[] h = tt
match_segments-IsPlainAfter b (String.◌∷◌ c s) h = elim (Bool-cases (is_path_char c)) [
  | inl p ↦ inl (p, match_segments-IsPlainAfter false s (rw (p, match_segments) at h))
  | inr np ↦ elim (Bool-cases (is_slash c)) [
    | inl q ↦
        let both = both_true b _ (rw (np, q, match_segments) at h) in
        inr (q, both.0, match_segments-IsPlainAfter true s both.1)
    | inr nq ↦ absurd (no_match (rw (np, nq, match_segments) at h))
  ]
]
  where
    both_true : (x y : Bool) → not x && y ≡ true → (x ≡ false) × (y ≡ true)
    both_true x y e = ground (arith, e)

    no_match : ¬ (false ≡ true)
    no_match e = ground (arith, e)

match_back_path-IsPlainPath : (s : String) → match_back_path s ≡ true → IsPlainPath s
unfolding match_back_path
match_back_path-IsPlainPath String.[] h = ground (arith, h)
match_back_path-IsPlainPath (String.◌∷◌ c s) h =
    let both = both_true (is_slash c) _ h in (both.0, match_segments-IsPlainAfter true s both.1)
  where
    both_true : (x y : Bool) → x && y ≡ true → (x ≡ true) × (y ≡ true)
    both_true x y e = ground (arith, e)

-- The back link of a token page is always a plain path of this site, whatever was asked for.
pub safe_back_path-IsPlainPath : (path : String) → IsPlainPath (safe_back_path path)
unfolding safe_back_path
safe_back_path-IsPlainPath path = elim (Bool-cases (match_back_path path)) [
  | inl ok ↦ rw (ok, safe_back_path) (match_back_path-IsPlainPath path ok)
  | inr bad ↦ rw (bad, safe_back_path) (refl, tt)
]

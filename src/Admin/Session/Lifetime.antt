-- ===== src/Admin/Session/Lifetime.antt =====
-- How long a session lives: as long as it is used within the window, and never again once it is
-- gone.
use cqu_netprobe_gateway.Prelude.{
  ◌+◌, ◌≤◌, ◌<◌, String, Option, none, some, List, [], ◌∷◌, ◌==◌, ◌≡◌, ◌≢◌, ◌∙◌, ap, ap₂, sym, refl,
  inl, inr, Bool-cases, All, length, arith, if◌then◌else◌, leb, false, eq_iff,
}
use cqu_netprobe_gateway.Prelude.GoMap.{
  lookup, lookup-insert_here, lookup-insert_other, lookup-erase_here, lookup-erase_absent,
}
use cqu_netprobe_gateway.Prelude.GoMap.Retain.{lookup-retain, keep_if}
use cqu_netprobe_gateway.Prelude.Time.{Time, Duration, after}
use cqu_netprobe_gateway.Admin.Session.{
  Session, SessionStore, created, limit_reached, max_sessions, is_live, evict, add, create, slide,
  get, destroy,
}
use cqu_netprobe_gateway.Admin.Session.Bounded.{
  Call, create_call, get_call, destroy_call, step, run, IsWellFormed, step-IsWellFormed,
}

-- What `get` gives for an ID, by the entry and the clock.
abbrev answer : Duration → Time → Option Session → Option Session
answer ttl now none = none
answer ttl now (some sess) =
    if after now sess.expires then none else some (record sess { expires = now + ttl })

slide_result :
    (s : SessionStore) (id : String) (now : Time) (o : Option Session)
    → lookup id s.sessions ≡ o
    → ((slide s id now o).1 ≡ answer s.ttl now o)
      × (lookup id (slide s id now o).0.sessions ≡ answer s.ttl now o)
      × ((slide s id now o).0.ttl ≡ s.ttl)
unfolding slide
slide_result s id now none e = (refl, e, refl)
slide_result s id now (some sess) e = elim (Bool-cases (after now sess.expires)) [
  | inl late ↦ rw (late, slide) (refl, lookup-erase_here id s.sessions, refl)
  | inr live ↦ rw (live, slide) (refl, lookup-insert_here id _ s.sessions, refl)
]

get_result :
    (s : SessionStore) (id : String) (now : Time)
    → id ≢ ""
    → ((get s id now).1 ≡ answer s.ttl now (lookup id s.sessions))
      × (lookup id (get s id now).0.sessions ≡ answer s.ttl now (lookup id s.sessions))
      × ((get s id now).0.ttl ≡ s.ttl)
unfolding get
get_result s id now ne =
    let e : (id == "") ≡ false = ground (arith, eq_iff id "") in
    rw (e, get) (slide_result s id now (lookup id s.sessions) refl)

answer_again :
    (ttl : Duration) (used now : Time) (o : Option Session) (sess : Session)
    → answer ttl used o ≡ some sess
    → now ≤ used + ttl
    → answer ttl now (answer ttl used o) ≡ some (record sess { expires = now + ttl })
answer_again ttl used now none sess h le = absurd (ground (arith, h))
answer_again ttl used now (some found) sess h le = elim (Bool-cases (after used found.expires)) [
  | inl late ↦ absurd (ground (arith, h))
  | inr live ↦ ground arith
]

-- A session found once is found again at any time within the window that its use opened, with the
-- same user and the same CSRF token, and that use opens the next window.
pub get-get :
    (s : SessionStore) (id : String) (used now : Time) (sess : Session)
    → id ≢ ""
    → (get s id used).1 ≡ some sess
    → now ≤ used + s.ttl
    → (get (get s id used).0 id now).1 ≡ some (record sess { expires = now + s.ttl })
get-get s id used now sess ne h le =
    let (found, kept, same) = get_result s id used ne in
    let (again, _, _) = get_result (get s id used).0 id now ne in
    again
    ∙ ap₂ (λ ttl o. answer ttl now o) same kept
    ∙ answer_again s.ttl used now (lookup id s.sessions) sess (sym found ∙ h) le

add_result :
    (s : SessionStore) (id csrf username : String) (at : Time) (sess : Session)
    → (add s id csrf username at).1 ≡ created sess
    → (lookup id (add s id csrf username at).0.sessions
        ≡ some (record { id = id; username = username; csrf = csrf; expires = at + s.ttl }))
      × ((add s id csrf username at).0.ttl ≡ s.ttl)
unfolding add
add_result s id csrf username at sess h = elim (Bool-cases (leb max_sessions (length s.sessions))) [
  | inl full ↦ absurd (refused (rw (full, add) at h))
  | inr room ↦ rw (room, add) (lookup-insert_here id _ s.sessions, refl)
]
  where
    refused : ¬ (limit_reached ≡ created sess)
    refused e = ground (arith, e)

-- A session just created is found within its window.
pub get-create :
    (s : SessionStore) (id csrf username : String) (evicted_at at now : Time) (sess : Session)
    → id ≢ ""
    → (create s (some id) (some csrf) username evicted_at at).1 ≡ created sess
    → now ≤ at + s.ttl
    → (get (create s (some id) (some csrf) username evicted_at at).0 id now).1
      ≡ some (record { id = id; username = username; csrf = csrf; expires = now + s.ttl })
unfolding create evict
get-create s id csrf username evicted_at at now sess ne h le =
    let (kept, same) = add_result (evict s evicted_at) id csrf username at sess h in
    let t = (add (evict s evicted_at) id csrf username at).0 in
    let (found, _, _) = get_result t id now ne in
    found ∙ ap₂ (λ ttl o. answer ttl now o) same kept ∙ in_window
  where
    in_window :
        answer s.ttl now
          (some (record { id = id; username = username; csrf = csrf; expires = at + s.ttl }))
        ≡ some (record { id = id; username = username; csrf = csrf; expires = now + s.ttl })
    in_window = ground arith

-- A call that makes no session under an ID.
abbrev pub Spares : String → Call → Type 0
Spares id (create_call (some other) csrf username evicted_at now) = other ≢ id
Spares id (create_call none csrf username evicted_at now) = Unit
Spares id (get_call other now) = Unit
Spares id (destroy_call other) = Unit

differs :
    (s : SessionStore) (id other : String) (sess : Session)
    → lookup id s.sessions ≡ none
    → lookup other s.sessions ≡ some sess
    → other ≢ id
differs s id other sess e f q = absurd (clash (sym e ∙ ap (λ k. lookup k s.sessions) (sym q) ∙ f))
  where
    clash : ¬ (none ≡ some sess)
    clash c = ground (arith, c)

slide_absent :
    (s : SessionStore) (id other : String) (now : Time) (o : Option Session)
    → lookup other s.sessions ≡ o
    → lookup id s.sessions ≡ none
    → lookup id (slide s other now o).0.sessions ≡ none
unfolding slide
slide_absent s id other now none f e = e
slide_absent s id other now (some sess) f e = elim (Bool-cases (after now sess.expires)) [
  | inl late ↦ rw (late, slide) (lookup-erase_absent other id s.sessions e)
  | inr live ↦
      rw (live, slide) (lookup-insert_other other id _ s.sessions (differs s id other sess e f) ∙ e)
]

evict_absent :
    (s : SessionStore) (id : String) (now : Time)
    → IsWellFormed s
    → lookup id s.sessions ≡ none
    → lookup id (evict s now).sessions ≡ none
unfolding evict
evict_absent s id now w e =
    lookup-retain (is_live now) id s.sessions w.is_map ∙ ap (keep_if (is_live now)) e

add_absent :
    (s : SessionStore) (id other csrf username : String) (now : Time)
    → other ≢ id
    → lookup id s.sessions ≡ none
    → lookup id (add s other csrf username now).0.sessions ≡ none
unfolding add
add_absent s id other csrf username now ne e =
    elim (Bool-cases (leb max_sessions (length s.sessions))) [
      | inl full ↦ rw (full, add) e
      | inr room ↦ rw (room, add) (lookup-insert_other other id _ s.sessions ne ∙ e)
    ]

step_absent :
    (s : SessionStore) (id : String) (c : Call)
    → IsWellFormed s
    → Spares id c
    → lookup id s.sessions ≡ none
    → lookup id (step s c).sessions ≡ none
unfolding create get destroy
step_absent s id (create_call (some other) (some csrf) username evicted_at now) w h e =
    add_absent (evict s evicted_at) id other csrf username now h (evict_absent s id evicted_at w e)
step_absent s id (create_call (some other) none username evicted_at now) w h e = e
step_absent s id (create_call none csrf username evicted_at now) w h e = e
step_absent s id (get_call other now) w h e = elim (Bool-cases (other == "")) [
  | inl empty ↦ rw (empty, step, get) e
  | inr given ↦ rw (given, step, get) (slide_absent s id other now (lookup other s.sessions) refl e)
]
step_absent s id (destroy_call other) w h e = lookup-erase_absent other id s.sessions e

run_absent :
    (s : SessionStore) (id : String) (cs : List Call)
    → IsWellFormed s
    → All (Spares id) cs
    → lookup id s.sessions ≡ none
    → lookup id (run s cs).sessions ≡ none
run_absent s id [] w h e = e
run_absent s id (c ∷ cs) w h e =
    run_absent (step s c) id cs (step-IsWellFormed s c w) h.1 (step_absent s id c w h.0 e)

get_absent :
    (s : SessionStore) (id : String) (now : Time)
    → lookup id s.sessions ≡ none
    → (get s id now).1 ≡ none
unfolding get slide
get_absent s id now e = elim (Bool-cases (id == "")) [
  | inl empty ↦ rw (empty, get) refl
  | inr given ↦ rw (given, get, e) refl
]

-- A destroyed session is never found again, whatever is called later, unless its ID is drawn anew.
pub get-destroy :
    (s : SessionStore) (id : String) (cs : List Call) (now : Time)
    → IsWellFormed s
    → All (Spares id) cs
    → (get (run (destroy s id) cs) id now).1 ≡ none
unfolding destroy
get-destroy s id cs now w h = get_absent (run (destroy s id) cs) id now (
    run_absent (destroy s id) id cs (step-IsWellFormed s (destroy_call id) w) h
      (lookup-erase_here id s.sessions))

-- A session left unused for longer than its window is refused, and never found again, whatever is
-- called later, unless its ID is drawn anew.
pub get_after_expiry :
    (s : SessionStore) (id : String) (late now : Time) (sess : Session) (cs : List Call)
    → IsWellFormed s
    → lookup id s.sessions ≡ some sess
    → sess.expires < late
    → id ≢ ""
    → All (Spares id) cs
    → ((get s id late).1 ≡ none) × ((get (run (get s id late).0 cs) id now).1 ≡ none)
get_after_expiry s id late now sess cs w e lt ne h =
    let (found, kept, _) = get_result s id late ne in
    let gone : answer s.ttl late (lookup id s.sessions) ≡ none = rw e expired in
    (
      found ∙ gone,
      get_absent (run (get s id late).0 cs) id now (
          run_absent (get s id late).0 id cs (step-IsWellFormed s (get_call id late) w) h
            (kept ∙ gone)),
    )
  where
    expired : answer s.ttl late (some sess) ≡ none
    expired = ground arith

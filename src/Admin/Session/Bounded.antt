-- ===== src/Admin/Session/Bounded.antt =====
-- The store stays a map of at most `max_sessions` entries, each under its session's ID.
use cqu_netprobe_gateway.Prelude.{
  ℕ, suc, ◌≤◌, String, Option, none, some, List, [], ◌∷◌, ◌==◌, ◌≡◌, refl, inl, inr, Bool-cases,
  All, length, arith, leb, false,
}
use cqu_netprobe_gateway.Prelude.GoMap.{
  IsMap, lookup, erase, insert-IsMap, erase-IsMap, All-insert, All-erase, length-insert-le,
  length-insert_present, All-lookup, length-erase-le,
}
use cqu_netprobe_gateway.Prelude.GoMap.Retain.{retain-IsMap, All-retain, length-retain-le}
use cqu_netprobe_gateway.Prelude.Time.{Time, Duration, after}
use cqu_netprobe_gateway.Admin.Session.{
  Session, SessionStore, max_sessions, new_session_store, is_live, evict, add, create, slide, get,
  destroy,
}

pub record IsWellFormed (s : SessionStore) : Type 0 where
  pub is_map : IsMap s.sessions
  pub bounded : length s.sessions ≤ max_sessions
  pub own_id : All (λ e. e.0 ≡ e.1.id) s.sessions

-- One call of the store.
pub data Call : Type 0 where
  create_call : Option String → Option String → String → Time → Time → Call
  get_call : String → Time → Call
  destroy_call : String → Call

abbrev pub step : SessionStore → Call → SessionStore
step s (create_call id csrf username evicted_at now) = (create s id csrf username evicted_at now).0
step s (get_call id now) = (get s id now).0
step s (destroy_call id) = destroy s id

abbrev pub run : SessionStore → List Call → SessionStore
run s [] = s
run s (c ∷ cs) = run (step s c) cs

new-IsWellFormed : (ttl : Duration) → IsWellFormed (new_session_store ttl)
unfolding new_session_store
new-IsWellFormed ttl = record { is_map = tt; bounded = omega arith; own_id = tt }

erase-IsWellFormed :
    (s : SessionStore) (id : String)
    → IsWellFormed s
    → IsWellFormed (record s { sessions = erase id s.sessions })
erase-IsWellFormed s id h = record {
  is_map = erase-IsMap id s.sessions h.is_map;
  bounded = omega (arith, length-erase-le id s.sessions, h.bounded);
  own_id = All-erase (λ e. e.0 ≡ e.1.id) id s.sessions h.own_id;
}

evict-IsWellFormed : (s : SessionStore) (now : Time) → IsWellFormed s → IsWellFormed (evict s now)
unfolding evict
evict-IsWellFormed s now h = record {
  is_map = retain-IsMap (is_live now) s.sessions h.is_map;
  bounded = omega (arith, length-retain-le (is_live now) s.sessions, h.bounded);
  own_id = All-retain (is_live now) (λ e. e.0 ≡ e.1.id) s.sessions h.own_id;
}

room_left : (n m : ℕ) → leb max_sessions n ≡ false → m ≤ suc n → m ≤ max_sessions
room_left n m h k = ground arith

add-IsWellFormed :
    (s : SessionStore) (id csrf username : String) (now : Time)
    → IsWellFormed s
    → IsWellFormed (add s id csrf username now).0
unfolding add
add-IsWellFormed s id csrf username now h =
    elim (Bool-cases (leb max_sessions (length s.sessions))) [
      | inl full ↦ rw (full, add) h
      | inr room ↦
          rw (room, add)
            (record {
              is_map = insert-IsMap id _ s.sessions h.is_map;
              bounded = room_left _ _ room (length-insert-le id _ s.sessions);
              own_id = All-insert (λ e. e.0 ≡ e.1.id) id _ s.sessions refl h.own_id;
            })
    ]

slide-IsWellFormed :
    (s : SessionStore) (id : String) (now : Time) (o : Option Session)
    → lookup id s.sessions ≡ o
    → IsWellFormed s
    → IsWellFormed (slide s id now o).0
unfolding slide
slide-IsWellFormed s id now none e h = h
slide-IsWellFormed s id now (some sess) e h = elim (Bool-cases (after now sess.expires)) [
  | inl late ↦ rw (late, slide) (erase-IsWellFormed s id h)
  | inr live ↦
      rw (live, slide)
        (record {
          is_map = insert-IsMap id _ s.sessions h.is_map;
          bounded = rw (length-insert_present id _ sess s.sessions e) h.bounded;
          own_id =
              All-insert (λ e. e.0 ≡ e.1.id) id _ s.sessions
                (All-lookup (λ e. e.0 ≡ e.1.id) id sess s.sessions e h.own_id) h.own_id;
        })
]

pub step-IsWellFormed : (s : SessionStore) (c : Call) → IsWellFormed s → IsWellFormed (step s c)
unfolding create get destroy
step-IsWellFormed s (create_call (some id) (some csrf) username evicted_at now) h =
    add-IsWellFormed (evict s evicted_at) id csrf username now (evict-IsWellFormed s evicted_at h)
step-IsWellFormed s (create_call (some id) none username evicted_at now) h = h
step-IsWellFormed s (create_call none csrf username evicted_at now) h = h
step-IsWellFormed s (get_call id now) h = elim (Bool-cases (id == "")) [
  | inl e ↦ rw (e, step, get) h
  | inr e ↦ rw (e, step, get) (slide-IsWellFormed s id now (lookup id s.sessions) refl h)
]
step-IsWellFormed s (destroy_call id) h = erase-IsWellFormed s id h

-- However the store is used, it holds at most 1000 sessions, each once and under its own ID.
pub run-IsWellFormed :
    (ttl : Duration) (cs : List Call) → IsWellFormed (run (new_session_store ttl) cs)
run-IsWellFormed ttl cs = from (new_session_store ttl) cs (new-IsWellFormed ttl)
  where
    from : (s : SessionStore) (cs : List Call) → IsWellFormed s → IsWellFormed (run s cs)
    from s [] h = h
    from s (c ∷ cs) h = from (step s c) cs (step-IsWellFormed s c h)

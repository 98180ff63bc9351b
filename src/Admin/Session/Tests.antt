-- ===== src/Admin/Session/Tests.antt =====
-- One administrator who logs in, works, and leaves.
use cqu_netprobe_gateway.Prelude.{none, some, List, [], ◌∷◌, ◌≡◌, refl, arith}
use cqu_netprobe_gateway.Prelude.Text.{text_ne}
use cqu_netprobe_gateway.Prelude.GoMap.{lookup, insert, erase}
use cqu_netprobe_gateway.Admin.Session.{Session, SessionStore, new_session_store, get, destroy}
use cqu_netprobe_gateway.Admin.Session.Bounded.{
  Call, create_call, get_call, destroy_call, run, IsWellFormed, run-IsWellFormed,
}
use cqu_netprobe_gateway.Admin.Session.Lifetime.{get-get, get-destroy}

abbrev alice : Session
alice = record { id = "s1"; username = "alice"; csrf = "c1"; expires = 110 }

abbrev logged_in : SessionStore
logged_in = record { sessions = ("s1", alice) ∷ []; ttl = 100 }

logged_in-IsWellFormed : IsWellFormed logged_in
logged_in-IsWellFormed = record { is_map = (tt, tt); bounded = omega arith; own_id = (refl, tt) }

abbrev calls : List Call
calls = get_call "s1" 50 ∷ create_call (some "s2") (some "c2") "bob" 60 60 ∷ destroy_call "s2" ∷ []

run-IsWellFormed_example : IsWellFormed (run (new_session_store 100) calls)
run-IsWellFormed_example = run-IsWellFormed 100 calls

get-get_example : (get (get logged_in "s1" 50).0 "s1" 149).1 ≡ some (record alice { expires = 249 })
unfolding get lookup insert erase
get-get_example =
    get-get logged_in "s1" 50 149 (record alice { expires = 150 }) (text_ne "s1" "" refl) refl
      (omega arith)

get-destroy_example : (get (run (destroy logged_in "s1") calls) "s1" 70).1 ≡ none
get-destroy_example =
    get-destroy logged_in "s1" calls 70 logged_in-IsWellFormed
      (tt, (text_ne "s2" "s1" refl, (tt, tt)))

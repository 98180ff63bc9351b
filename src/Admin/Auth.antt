-- ===== src/Admin/Auth.antt =====
-- internal/admin/auth.go: the session of a request, the two guards, and the session routes. The check
-- of a password against its hash is a parameter.
pub mod Guarded
use cqu_netprobe_gateway.Prelude.{
  ℕ, String, Bool, true, false, not, ◌||◌, Option, none, some, List, ◌==◌, if◌then◌else◌,
}
use cqu_netprobe_gateway.Prelude.Time.{Time}
use cqu_netprobe_gateway.RateLimit.{RateLimiter}
use cqu_netprobe_gateway.Admin.Session.{
  Session, SessionStore, Created, no_entropy, limit_reached, created, create, get, destroy,
}
use cqu_netprobe_gateway.Admin.Server.{
  Admin, Fixed, Reply, redirect, plain, view, signed_in, signed_out, FormFields, Visit,
}

-- The session of a request; a missing cookie is none.
unfoldable pub session_from_request :
    SessionStore → Option String → Time → SessionStore × Option Session
session_from_request s none now = (s, none)
session_from_request s (some id) now = get s id now

abbrev pub to_login : Reply
to_login = redirect "/admin/login"

abbrev pub login_page : ℕ → String → Reply
login_page status message = view status "login.html" message

module _ {R : RateLimiter} where
  abbrev pub with_sessions : Admin R → SessionStore → Admin R
  with_sessions s sessions = record s { sessions = sessions }

  -- The look at the session with which every handler behind the guards begins; it moves the expiry.
  abbrev pub look_again : Visit → Admin R → Admin R
  look_again v s = with_sessions s (session_from_request s.sessions v.cookie v.handler_now).0

  -- What a guard does with the session that it found.
  pub behind_session :
      (Admin R → Session → Admin R × Reply)
      → Admin R
      → SessionStore × Option Session
      → Admin R × Reply
  behind_session next s (sessions, none) = (with_sessions s sessions, to_login)
  behind_session next s (sessions, some sess) = next (with_sessions s sessions) sess

  unfoldable pub require_session : Visit → (Admin R → Admin R × Reply) → Admin R → Admin R × Reply
  unfolding behind_session
  require_session v next s =
      behind_session (λ u sess. next u) s (session_from_request s.sessions v.cookie v.now)

  pub check_csrf :
      (Admin R → Admin R × Reply) → Option FormFields → Admin R → Session → Admin R × Reply
  check_csrf next none s sess = (s, plain 400 "invalid form")
  check_csrf next (some fields) s sess =
      if not (fields.csrf == sess.csrf) then (s, plain 403 "invalid CSRF token") else next s

  unfoldable pub require_csrf : Visit → (Admin R → Admin R × Reply) → Admin R → Admin R × Reply
  unfolding behind_session check_csrf
  require_csrf v next s =
      behind_session (check_csrf next v.fields) s
        (session_from_request s.sessions v.cookie v.csrf_now)

  -- How `Routes` wraps every handler that changes the tables.
  unfoldable pub guarded : Visit → (Admin R → Admin R × Reply) → Admin R → Admin R × Reply
  guarded v next s = require_session v (require_csrf v next) s

  unfoldable pub handle_login_page : Visit → Admin R → Admin R × Reply
  unfolding behind_session
  handle_login_page v s =
      let (sessions, found) = session_from_request s.sessions v.cookie v.now in
      (
        with_sessions s sessions,
        elim found [ none ↦ login_page 200 "" | some sess ↦ redirect "/admin" ],
      )

  pub start_session : Admin R → SessionStore × Created → Admin R × Reply
  start_session s (sessions, created sess) = (with_sessions s sessions, signed_in sess.id)
  start_session s (sessions, no_entropy) = (with_sessions s sessions, plain 500 "internal error")
  start_session s (sessions, limit_reached) = (with_sessions s sessions, plain 500 "internal error")

  -- The ID and the CSRF token of a new session are drawn, and the clock is read twice.
  pub check_password :
      (String → String → Bool)
      → Fixed
      → Option String
      → Option String
      → Visit
      → Admin R
      → String
      → String
      → Admin R × Reply
  check_password verify f id csrf v s username password =
      if not (username == f.username) || not (verify f.password_hash password)
      then (s, login_page 401 "用户名或密码错误")
      else start_session s (create s.sessions id csrf username v.now v.csrf_now)

  unfoldable pub handle_login :
      (String → String → Bool)
      → Fixed
      → Option String
      → Option String
      → Visit
      → Admin R
      → Admin R × Reply
  unfolding check_password start_session
  handle_login verify f id csrf v s = elim v.fields [
    | none ↦ (s, plain 400 "invalid form")
    | some fields ↦ check_password verify f id csrf v s fields.username fields.password
  ]

  unfoldable pub handle_logout : Visit → Admin R → Admin R × Reply
  handle_logout v s = elim v.cookie [
    | none ↦ (s, signed_out)
    | some id ↦ (with_sessions s (destroy s.sessions id), signed_out)
  ]

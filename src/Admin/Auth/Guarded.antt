-- ===== src/Admin/Auth/Guarded.antt =====
-- The guards in front of every handler that changes the tables, and the login.
use cqu_netprobe_gateway.Prelude.{
  String, Option, none, some, ◌≡◌, ◌⊎◌, refl, sym, subst, inl, inr, Bool-cases, ◌==◌, eq_iff,
}
use cqu_netprobe_gateway.RateLimit.{RateLimiter}
use cqu_netprobe_gateway.Admin.Session.{Session, SessionStore, get}
use cqu_netprobe_gateway.Admin.Server.{Admin, Reply, plain, FormFields, Visit}
use cqu_netprobe_gateway.Admin.Auth.{
  session_from_request, to_login, with_sessions, behind_session, require_session, check_csrf,
  require_csrf, guarded,
}

module _ {R : RateLimiter} where
  -- A request that is let through has a live session, and names its CSRF token.
  pub record IsAuthorised (v : Visit) (s : Admin R) (after : SessionStore) : Type 0 where
    pub id : String
    pub cookie_at : v.cookie ≡ some id
    pub seen : Session
    pub between : SessionStore
    pub live : get s.sessions id v.now ≡ (between, some seen)
    pub checked : Session
    pub still_live : get between id v.csrf_now ≡ (after, some checked)
    pub fields : FormFields
    pub parsed : v.fields ≡ some fields
    pub token_at : fields.csrf ≡ checked.csrf

  -- How a guarded handler ends: in front of the guards, with nothing changed but the sessions, or
  -- behind them.
  pub data GuardCase (v : Visit) (next : Admin R → Admin R × Reply) (s : Admin R)
      : Admin R × Reply → Type 0 where
    stopped :
        (sessions : SessionStore) (reply : Reply)
        → (reply ≡ to_login)
          ⊎ (reply ≡ plain 400 "invalid form")
          ⊎ (reply ≡ plain 403 "invalid CSRF token")
        → GuardCase v next s (with_sessions s sessions, reply)
    let_through :
        (sessions : SessionStore)
        → IsAuthorised v s sessions
        → GuardCase v next s (next (with_sessions s sessions))

  csrf-case :
      (v : Visit) (next : Admin R → Admin R × Reply) (s : Admin R) (id : String)
      (seen sess : Session) (between after : SessionStore) (o : Option FormFields)
      → v.cookie ≡ some id
      → get s.sessions id v.now ≡ (between, some seen)
      → get between id v.csrf_now ≡ (after, some sess)
      → v.fields ≡ o
      → GuardCase v next s (check_csrf next o (with_sessions s after) sess)
  unfolding check_csrf
  csrf-case v next s id seen sess between after none c g k e =
      stopped after (plain 400 "invalid form") (inr (inl refl))
  csrf-case v next s id seen sess between after (some fields) c g k e =
      elim (Bool-cases (fields.csrf == sess.csrf)) [
        | inl q ↦ rw q (
            let_through after (record {
              id = id;
              cookie_at = c;
              seen = seen;
              between = between;
              live = g;
              checked = sess;
              still_live = k;
              fields = fields;
              parsed = e;
              token_at = (eq_iff fields.csrf sess.csrf).0 q;
            }))
        | inr q ↦ rw q (stopped after (plain 403 "invalid CSRF token") (inr (inr refl)))
      ]

  second-case :
      (v : Visit) (next : Admin R → Admin R × Reply) (s : Admin R) (id : String) (seen : Session)
      (between : SessionStore) (x : SessionStore × Option Session)
      → v.cookie ≡ some id
      → get s.sessions id v.now ≡ (between, some seen)
      → get between id v.csrf_now ≡ x
      → GuardCase v next s (behind_session (check_csrf next v.fields) (with_sessions s between) x)
  unfolding behind_session
  second-case v next s id seen between (after, none) c g k = stopped after to_login (inl refl)
  second-case v next s id seen between (after, some sess) c g k =
      csrf-case v next s id seen sess between after v.fields c g k refl

  first-case :
      (v : Visit) (next : Admin R → Admin R × Reply) (s : Admin R) (id : String)
      (x : SessionStore × Option Session)
      → v.cookie ≡ some id
      → get s.sessions id v.now ≡ x
      → GuardCase v next s (behind_session (λ u sess. require_csrf v next u) s x)
  unfolding behind_session require_csrf session_from_request
  first-case v next s id (between, none) c g = stopped between to_login (inl refl)
  first-case v next s id (between, some seen) c g =
      subst
        (λ o. GuardCase v next s (
          behind_session (check_csrf next v.fields) (with_sessions s between)
            (session_from_request between o v.csrf_now)))
        (sym c) (second-case v next s id seen between (get between id v.csrf_now) c g refl)

  -- A handler behind both guards runs only for a request with a live session that names the session's
  -- own CSRF token; any other request changes nothing but the sessions, and is sent to the login or
  -- refused.
  pub guarded-case :
      (v : Visit) (next : Admin R → Admin R × Reply) (s : Admin R)
      → GuardCase v next s (guarded v next s)
  unfolding guarded require_session session_from_request
  guarded-case v next s = by_cookie v.cookie refl
    where
      by_cookie :
          (o : Option String)
          → v.cookie ≡ o
          → GuardCase v next s (
              behind_session
                (λ u sess. require_csrf v next u)
                s
                (session_from_request s.sessions o v.now))
      by_cookie none c = unfold behind_session in stopped s.sessions to_login (inl refl)
      by_cookie (some id) c = first-case v next s id (get s.sessions id v.now) c refl

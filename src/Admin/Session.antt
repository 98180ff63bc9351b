-- ===== src/Admin/Session.antt =====
-- internal/admin/session.go: the sessions of the administrator. The clock and crypto/rand are read
-- by the caller of a step; a failed read of random bytes is `none`, and base64 is a parameter.
pub mod Lifetime
pub mod Bounded
mod Tests
use cqu_netprobe_gateway.Prelude.{
  ℕ, ◌+◌, ◌*◌, String, Option, none, some, List, [], ◌==◌, leb, if◌then◌else◌, length, not, Bool,
}
use cqu_netprobe_gateway.Prelude.GoMap.{GoMap, lookup, insert, erase}
use cqu_netprobe_gateway.Prelude.GoMap.Retain.{retain}
use cqu_netprobe_gateway.Prelude.Time.{Time, Duration, minute, after}

abbrev pub session_ttl : Duration
session_ttl = 720 * minute

abbrev pub max_sessions : ℕ
max_sessions = 1000

pub record Session : Type 0 where
  pub id : String
  pub username : String
  pub csrf : String
  pub expires : Time

pub record SessionStore : Type 0 where
  pub sessions : GoMap Session
  pub ttl : Duration

pub data Created : Type 0 where
  no_entropy limit_reached : Created
  created : Session → Created

unfoldable pub new_session_store : Duration → SessionStore
new_session_store ttl = record { sessions = []; ttl = ttl }

abbrev pub random_string : (List ℕ → String) → Option (List ℕ) → Option String
random_string encode none = none
random_string encode (some buf) = some (encode buf)

abbrev pub is_live : Time → Session → Bool
is_live now sess = not (after now sess.expires)

pub evict : SessionStore → Time → SessionStore
evict s now = record s { sessions = retain (is_live now) s.sessions }

-- The end of `create`, on a store whose expired sessions are gone.
pub add : SessionStore → String → String → String → Time → SessionStore × Created
add s id csrf username now =
    if leb max_sessions (length s.sessions)
    then (s, limit_reached)
    else (let sess : Session = record {
      id = id;
      username = username;
      csrf = csrf;
      expires = now + s.ttl;
    } in
        (record s { sessions = insert id sess s.sessions }, created sess))

-- `create` reads the clock twice, for the eviction and for the expiry.
unfoldable pub create :
    SessionStore → Option String → Option String → String → Time → Time → SessionStore × Created
unfolding evict add
create s (some id) (some csrf) username evicted_at now =
    add (evict s evicted_at) id csrf username now
create s (some id) none username evicted_at now = (s, no_entropy)
create s none csrf username evicted_at now = (s, no_entropy)

-- `get` on what the map has under the ID.
pub slide : SessionStore → String → Time → Option Session → SessionStore × Option Session
slide s id now none = (s, none)
slide s id now (some sess) =
    if after now sess.expires
    then (record s { sessions = erase id s.sessions }, none)
    else (let renewed = record sess { expires = now + s.ttl } in
        (record s { sessions = insert id renewed s.sessions }, some renewed))

unfoldable pub get : SessionStore → String → Time → SessionStore × Option Session
unfolding slide
get s id now = if id == "" then (s, none) else slide s id now (lookup id s.sessions)

unfoldable pub destroy : SessionStore → String → SessionStore
destroy s id = record s { sessions = erase id s.sessions }

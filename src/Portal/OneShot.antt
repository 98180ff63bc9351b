-- ===== src/Portal/OneShot.antt =====
-- internal/portal/oneshot.go: tokens that are shown once. A failed read of random bytes is `none`.
pub mod Once
mod Tests
use Prim.Native.Char.{Char, code}
use Prim.Native.String
use cqu_netprobe_gateway.Prelude.{
  ℕ, ◌+◌, ◌*◌, String, Bool, true, false, not, ◌&&◌, ◌||◌, Option, none, some, List, [], ◌∷◌, leb,
  eqb, if◌then◌else◌,
}
use cqu_netprobe_gateway.Prelude.GoMap.{GoMap, lookup, insert, erase}
use cqu_netprobe_gateway.Prelude.GoMap.Retain.{retain}
use cqu_netprobe_gateway.Prelude.Time.{Time, Duration, second, after}

abbrev pub one_shot_ttl : Duration
one_shot_ttl = 60 * second

pub record OneShot : Type 0 where
  pub probe_id : String
  pub value : String
  pub back : String
  pub expires : Time

pub record OneShotStore : Type 0 where
  pub slots : GoMap OneShot
  pub ttl : Duration

-- The class `[A-Za-z0-9._~-]` of `backPathPattern`.
abbrev pub is_path_char : Char → Bool
is_path_char c =
    let n = code c in
    (leb 65 n && leb n 90)
    || (leb 97 n && leb n 122)
    || (leb 48 n && leb n 57)
    || eqb n 46
    || eqb n 95
    || eqb n 126
    || eqb n 45

abbrev pub is_slash : Char → Bool
is_slash c = eqb (code c) 47

-- The pattern behind its first slash; the flag says that a slash has just been read.
pub match_segments : Bool → String → Bool
match_segments after_slash String.[] = true
match_segments after_slash (String.◌∷◌ c s) =
    let same_segment = match_segments false s in
    let next_segment = match_segments true s in
    if is_path_char c
    then same_segment
    else if is_slash c
    then not after_slash && next_segment
    else false

pub match_back_path : String → Bool
unfolding match_segments
match_back_path String.[] = false
match_back_path (String.◌∷◌ c s) = is_slash c && match_segments true s

unfoldable pub safe_back_path : String → String
unfolding match_back_path
safe_back_path path = if match_back_path path then path else "/"

abbrev pub is_current : Time → OneShot → Bool
is_current now v = not (after now v.expires)

unfoldable pub put_pair :
    OneShotStore → Option String → String → String → String → Time → OneShotStore × Option String
unfolding safe_back_path
put_pair o none probe_id value back now = (o, none)
put_pair o (some slot) probe_id value back now = (
  record o {
    slots =
        insert slot
          (record {
            probe_id = probe_id;
            value = value;
            back = safe_back_path back;
            expires = now + o.ttl;
          })
          (retain (is_current now) o.slots);
  },
  some slot,
)

pub redeem : OneShotStore → String → Time → Option OneShot → OneShotStore × Option OneShot
redeem o slot now none = (o, none)
redeem o slot now (some v) =
    (record o { slots = erase slot o.slots }, if after now v.expires then none else some v)

unfoldable pub take_pair : OneShotStore → String → Time → OneShotStore × Option OneShot
unfolding redeem
take_pair o slot now = redeem o slot now (lookup slot o.slots)

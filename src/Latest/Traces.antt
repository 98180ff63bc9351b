-- ===== src/Latest/Traces.antt =====
-- What a reader finds after any sequence of writes.
use cqu_netprobe_gateway.Prelude.{
  String, Option, none, some, List, [], ◌∷◌, ◌==◌, ◌≡◌, ◌∙◌, ap, refl, if◌then◌else◌,
}
use cqu_netprobe_gateway.Prelude.GoMap.{
  lookup, lookup-insert, lookup-erase, IsMap, insert-IsMap, erase-IsMap,
}
use cqu_netprobe_gateway.Prelude.Time.{Time}
use cqu_netprobe_gateway.Protocol.Types.{Results}
use cqu_netprobe_gateway.Latest.{Entry, Store, new, put, get, snapshot, delete}

-- One write under the lock.
pub data Write : Type 0 where
  put_at : String → Results → Time → Write
  delete_of : String → Write

abbrev pub apply : Store → Write → Store
apply s (put_at p r t) = put s p r t
apply s (delete_of p) = delete s p

abbrev pub apply_all : Store → List Write → Store
apply_all s [] = s
apply_all s (w ∷ ws) = apply_all (apply s w) ws

-- What the last write about a probe says, the newest write last.
abbrev about : String → Write → Option Entry → Option Entry
about k (put_at p r t) before =
    if p == k then some (record { results = r; server_received_at = t }) else before
about k (delete_of p) before = if p == k then none else before

abbrev pub last_about : String → List Write → Option Entry → Option Entry
last_about k [] found = found
last_about k (w ∷ ws) found = last_about k ws (about k w found)

get-apply : (k : String) (w : Write) (s : Store) → get (apply s w) k ≡ about k w (get s k)
unfolding get put delete
get-apply k (put_at p r t) s = lookup-insert p k _ s.entries
get-apply k (delete_of p) s = lookup-erase p k s.entries

-- A reader finds what the last write about its probe left, whatever else was written: the last
-- measurement stored, or nothing after a deletion.
pub get-apply_all :
    (k : String) (ws : List Write) (s : Store) → get (apply_all s ws) k ≡ last_about k ws (get s k)
get-apply_all k [] s = refl
get-apply_all k (w ∷ ws) s = get-apply_all k ws (apply s w) ∙ ap (last_about k ws) (get-apply k w s)

apply-IsMap : (w : Write) (s : Store) → IsMap s.entries → IsMap (apply s w).entries
unfolding put delete
apply-IsMap (put_at p r t) s h = insert-IsMap p _ s.entries h
apply-IsMap (delete_of p) s h = erase-IsMap p s.entries h

apply_all-IsMap : (ws : List Write) (s : Store) → IsMap s.entries → IsMap (apply_all s ws).entries
apply_all-IsMap [] s h = h
apply_all-IsMap (w ∷ ws) s h = apply_all-IsMap ws (apply s w) (apply-IsMap w s h)

-- A snapshot of a store reached from the empty one has one entry for a probe, and what it has for
-- it is what the last write said.
pub snapshot-apply_all :
    (ws : List Write)
    → IsMap (snapshot (apply_all new ws))
      × ((k : String) → lookup k (snapshot (apply_all new ws)) ≡ last_about k ws none)
unfolding snapshot new get lookup
snapshot-apply_all ws = (apply_all-IsMap ws new tt, λ k. get-apply_all k ws new)

-- ===== src/Admin/Probes.antt =====
-- internal/admin/probes.go: the list of probes, and the handlers that change one. A handler gets the
-- ID of its path and what the driver and the clock do.
pub mod Counts
pub mod Cleared
use cqu_netprobe_gateway.Prelude.{
  ℕ, suc, String, Bool, true, false, not, ◌&&◌, ◌||◌, Option, none, some, List, [], ◌∷◌, ◌==◌,
  if◌then◌else◌, length,
}
use Prim.Native.String
use cqu_netprobe_gateway.Prelude.Time.{Time, Duration}
use cqu_netprobe_gateway.RateLimit.{RateLimiter}
use cqu_netprobe_gateway.Latest.{Entry, get}
use cqu_netprobe_gateway.Latest
use cqu_netprobe_gateway.Metrics.{is_online}
use cqu_netprobe_gateway.Api.Limiter.{remove}
use cqu_netprobe_gateway.Store.{
  Probe, Lookup, found, not_found, failed, WriteResult, written, missing, duplicate, in_use,
  write_failed, Exec,
}
use cqu_netprobe_gateway.Store.Probes.{
  ProbeTable, get_probe, list_probes, set_probe_enabled, update_probe_token, delete_probe,
}
use cqu_netprobe_gateway.Portal.OneShot.{OneShotStore, put_pair}
use cqu_netprobe_gateway.Admin.Server.{Admin, Reply, redirect, plain, missing_page, Visit}
use cqu_netprobe_gateway.Admin.Auth.{look_again}

pub record ProbeRow : Type 0 where
  pub probe : Probe
  pub online : Bool
  pub last_seen : Time

abbrev pub entry_state : Time → Duration → Option Entry → Bool × Time
entry_state now threshold none = (false, 0)
entry_state now threshold (some e) = (is_online now threshold e, e.server_received_at)

-- `onlineState`.
unfoldable pub online_state : Latest.Store → Duration → Time → Probe → Bool × Time
online_state latest threshold now p =
    if not p.enabled then (false, 0) else entry_state now threshold (get latest p.probe_id)

unfoldable pub probe_row : Latest.Store → Duration → Time → Probe → ProbeRow
probe_row latest threshold now p =
    let (online, last_seen) = online_state latest threshold now p in
    record { probe = p; online = online; last_seen = last_seen }

abbrev pub is_filter : String → Bool
is_filter f = f == "all" || f == "online" || f == "offline" || f == "disabled"

unfoldable pub matches_probe_filter : String → ProbeRow → Bool
matches_probe_filter filter row =
    if filter == "disabled"
    then not row.probe.enabled
    else if filter == "online"
    then row.probe.enabled && row.online
    else if filter == "offline"
    then row.probe.enabled && not row.online
    else true

-- The loop of `handleProbeList`.
unfoldable pub matching_rows : Latest.Store → Duration → Time → String → List Probe → List ProbeRow
matching_rows latest threshold now filter [] = []
matching_rows latest threshold now filter (p ∷ ps) =
    let row = probe_row latest threshold now p in
    let rest = matching_rows latest threshold now filter ps in
    if matches_probe_filter filter row then row ∷ rest else rest

-- One entry of the map that `countProbeFilters` makes; a key that nothing was counted for reads as 0.
unfoldable pub count_probe_filter : Latest.Store → Duration → Time → String → List Probe → ℕ
count_probe_filter latest threshold now filter [] = 0
count_probe_filter latest threshold now filter (p ∷ ps) =
    let rest = count_probe_filter latest threshold now filter ps in
    if matches_probe_filter filter (probe_row latest threshold now p) then suc rest else rest

-- What the list page is given, on the outcome of the query.
pub record ListPage : Type 0 where
  pub rows : List ProbeRow
  pub filter : String
  pub all : ℕ
  pub disabled : ℕ
  pub online : ℕ
  pub offline : ℕ

abbrev pub list_page : Latest.Store → Duration → Time → String → List Probe → ListPage
list_page latest threshold now filter probes = record {
  rows = matching_rows latest threshold now filter probes;
  filter = filter;
  all = length probes;
  disabled = count_probe_filter latest threshold now "disabled" probes;
  online = count_probe_filter latest threshold now "online" probes;
  offline = count_probe_filter latest threshold now "offline" probes;
}

-- What happens around a rotation: the driver, the clock, the token and the slot that are drawn.
pub record Rotation : Type 0 where
  pub read_fails : Bool
  pub driver : Exec
  pub now : Time
  pub then_now : Time
  pub token : Option String
  pub slot : Option String
  pub slot_now : Time

abbrev pub internal_error : Reply
internal_error = plain 500 "internal error"

module _ {R : RateLimiter} where
  -- What is kept in memory of a probe is forgotten.
  unfoldable pub forget : Admin R → String → Admin R
  forget s id = record s { latest = Latest.delete s.latest id; limiter = remove R s.limiter id }

  -- `none` is the answer 500.
  unfoldable pub handle_probe_list :
      Visit → Bool → Duration → Time → String → Admin R → Admin R × Option ListPage
  handle_probe_list v fails threshold now query s = (
    look_again v s,
    elim (list_probes fails s.probes) [
      | none ↦ none
      | some probes ↦
          some (list_page s.latest threshold now (if is_filter query then query else "all") probes)
    ],
  )

  unfoldable pub handle_probe_detail :
      Visit → Bool → Duration → Time → String → Admin R → Admin R × Lookup ProbeRow
  handle_probe_detail v fails threshold now id s = (
    look_again v s,
    elim (get_probe fails s.probes id) [
      | not_found ↦ not_found
      | failed ↦ failed
      | found p ↦ found (probe_row s.latest threshold now p)
    ],
  )

  abbrev pub with_probes : Admin R → ProbeTable → Admin R
  with_probes s t = record s { probes = t }

  -- Behind the UPDATE; only a probe that was enabled leaves anything to forget.
  pub after_toggle : Admin R → String → Bool → ProbeTable × WriteResult → Admin R × Reply
  after_toggle s id enabled (t, written) =
      (if enabled then forget (with_probes s t) id else with_probes s t, redirect "/admin")
  after_toggle s id enabled (t, missing) = (with_probes s t, internal_error)
  after_toggle s id enabled (t, duplicate) = (with_probes s t, internal_error)
  after_toggle s id enabled (t, in_use) = (with_probes s t, internal_error)
  after_toggle s id enabled (t, write_failed) = (with_probes s t, internal_error)

  pub toggle_found : Exec → Time → String → Admin R → Lookup Probe → Admin R × Reply
  toggle_found driver now id s not_found = (s, missing_page)
  toggle_found driver now id s failed = (s, internal_error)
  toggle_found driver now id s (found p) =
      after_toggle s id p.enabled (set_probe_enabled driver now s.probes id (not p.enabled))

  unfoldable pub handle_probe_toggle :
      Visit → Bool → Exec → Time → String → Admin R → Admin R × Reply
  handle_probe_toggle v read_fails driver now id s =
      toggle_found driver now id (look_again v s) (get_probe read_fails s.probes id)

  -- `MintTokenSlot` behind the rotation, and the way to the page of the token.
  pub mint : Admin R → Rotation → String → String → String → Admin R × Reply
  mint s x id token back =
      let (o, drawn) = put_pair s.one_shot x.slot id token back x.slot_now in
      (
        record s { one_shot = o },
        elim drawn [ none ↦ internal_error | some v ↦ redirect (String.◌++◌ "/token/" v) ],
      )

  pub after_rotate :
      Admin R → Rotation → String → String → ProbeTable × WriteResult → Admin R × Reply
  after_rotate s x id token (t, written) =
      mint (with_probes s t) x id token (String.◌++◌ "/admin/probes/" id)
  after_rotate s x id token (t, missing) = (with_probes s t, internal_error)
  after_rotate s x id token (t, duplicate) = (with_probes s t, internal_error)
  after_rotate s x id token (t, in_use) = (with_probes s t, internal_error)
  after_rotate s x id token (t, write_failed) = (with_probes s t, internal_error)

  pub rotate_drawn :
      (String → String) → Rotation → String → Admin R → Option String → Admin R × Reply
  rotate_drawn token_hash x id s none = (s, internal_error)
  rotate_drawn token_hash x id s (some token) =
      after_rotate s x id token
        (update_probe_token x.driver x.now x.then_now s.probes id (token_hash token))

  -- The token is drawn once the probe is found.
  pub rotate_found :
      (String → String) → Rotation → String → Admin R → Lookup Probe → Admin R × Reply
  rotate_found token_hash x id s not_found = (s, missing_page)
  rotate_found token_hash x id s failed = (s, internal_error)
  rotate_found token_hash x id s (found p) = rotate_drawn token_hash x id s x.token

  unfoldable pub handle_probe_rotate :
      (String → String) → Visit → Rotation → String → Admin R → Admin R × Reply
  handle_probe_rotate token_hash v x id s =
      rotate_found token_hash x id (look_again v s) (get_probe x.read_fails s.probes id)

  pub after_delete : Admin R → String → ProbeTable × WriteResult → Admin R × Reply
  after_delete s id (t, written) = (forget (with_probes s t) id, redirect "/admin")
  after_delete s id (t, missing) = (with_probes s t, missing_page)
  after_delete s id (t, duplicate) = (with_probes s t, internal_error)
  after_delete s id (t, in_use) = (with_probes s t, internal_error)
  after_delete s id (t, write_failed) = (with_probes s t, internal_error)

  unfoldable pub handle_probe_delete : Visit → Exec → String → Admin R → Admin R × Reply
  handle_probe_delete v driver id s =
      after_delete (look_again v s) id (delete_probe driver s.probes id)

-- All that the handlers compute with, past the store.
unfoldable pub probe_handlers_run : Unit {0}
unfolding handle_probe_list handle_probe_detail forget after_toggle toggle_found handle_probe_toggle
    mint after_rotate rotate_drawn rotate_found handle_probe_rotate after_delete handle_probe_delete
probe_handlers_run = tt

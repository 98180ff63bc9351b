-- ===== src/Store/Probes/Tests.antt =====
-- A probe is created, its token rotated, and the probe deleted.
use cqu_netprobe_gateway.Prelude.{◌+◌, ◌*◌, String, true, false, List, [], ◌∷◌, ◌≡◌, ◌≢◌, refl}
use cqu_netprobe_gateway.Prelude.Time.{Time, unix_epoch, second}
use cqu_netprobe_gateway.Store.{
  Probe, found, not_found, missing, duplicate, ran, refused, uncounted,
}
use cqu_netprobe_gateway.Store.Probes.{
  ProbeTable, probe_by_token_hash, create_probe, update_probe_token, delete_probe, scan_probe,
  new_row, probes_run_statements,
}
use cqu_netprobe_gateway.Store.Probes.Unique.{
  IsWellFormed, Call, create_call, enable_call, rotate_call, delete_call, probes_run,
  probes_run-IsWellFormed,
}
use cqu_netprobe_gateway.Store.Probes.Tokens.{update_probe_token-authenticates}

abbrev hash : String
hash = "h1"

abbrev new_hash : String
new_hash = "h2"

abbrev other_hash : String
other_hash = "h3"

abbrev empty : ProbeTable
empty = record { rows = []; next_id = 1 }

abbrev probe : String → String → Probe
probe id token = record {
  id = 0;
  probe_id = id;
  token_hash = token;
  campus_code = "a";
  campus_name = "A";
  building_group_code = "g";
  building_group_name = "G";
  building_code = "b";
  building_name = "B";
  network_type = "wired";
  enabled = true;
  description = "";
  rotated_at = 0;
  created_via = "public";
  created_at = 0;
  updated_at = 0;
}

abbrev pub noon : Time
noon = unix_epoch + 100 * second

abbrev pub one_probe : ProbeTable
one_probe = (create_probe false false noon empty (probe "a-b-1" hash)).0

abbrev rotated : ProbeTable
rotated = (update_probe_token ran noon noon one_probe "a-b-1" new_hash).0

abbrev pub first : Probe
first =
    scan_probe (new_row 1 (record (probe "a-b-1" hash) { created_at = noon; updated_at = noon }))

empty-IsWellFormed : IsWellFormed empty
empty-IsWellFormed = record { ids_distinct = tt; tokens_distinct = tt }

one_probe-IsWellFormed : IsWellFormed one_probe
unfolding probes_run_statements
one_probe-IsWellFormed = record { ids_distinct = (tt, tt); tokens_distinct = (tt, tt) }

same_token_refused : (create_probe false false noon one_probe (probe "a-b-2" hash)).1.0 ≡ duplicate
unfolding probes_run_statements
same_token_refused = refl

unknown_probe : (delete_probe ran one_probe "a-b-9").1 ≡ missing
unfolding probes_run_statements
unknown_probe = refl

abbrev history : List Call
history =
    create_call false false noon (probe "a-b-1" hash)
    ∷ create_call false true noon (probe "a-b-2" hash)
    ∷ rotate_call uncounted noon noon "a-b-1" new_hash
    ∷ enable_call ran noon "a-b-1" false
    ∷ delete_call refused "a-b-1"
    ∷ []

probes_run-IsWellFormed_example : IsWellFormed (probes_run empty history)
probes_run-IsWellFormed_example = probes_run-IsWellFormed empty history empty-IsWellFormed

update_probe_token-authenticates_example :
    (q : Probe) × (probe_by_token_hash false rotated new_hash ≡ found q)
    × (q.probe_id ≡ "a-b-1")
    × (q.enabled ≡ true)
    × (new_hash ≢ hash → probe_by_token_hash false rotated hash ≡ not_found)
    × (other_hash ≢ new_hash
        → other_hash ≢ hash
        → probe_by_token_hash false rotated other_hash
          ≡ probe_by_token_hash false one_probe other_hash)
unfolding probes_run_statements
update_probe_token-authenticates_example =
    update_probe_token-authenticates ran noon noon one_probe rotated "a-b-1" new_hash first
      other_hash one_probe-IsWellFormed refl refl

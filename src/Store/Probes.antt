-- ===== src/Store/Probes.antt =====
-- internal/store/probes.go: the table of probes. A flag or an `Exec` says what the driver does with
-- a statement; the clock's readings are arguments.
pub mod Unique
pub mod Tokens
pub mod Tests
use cqu_netprobe_gateway.Prelude.{
  ℕ, ◌+◌, String, Bool, true, false, not, ◌&&◌, ◌||◌, Option, none, some, List, [], map, ◌==◌, leb,
  eqb, if◌then◌else◌, length,
}
use cqu_netprobe_gateway.Prelude.Sort.{sort_by}
use cqu_netprobe_gateway.Prelude.Time.{Time, unix, from_unix, is_zero}
use cqu_netprobe_gateway.Store.{
  Probe, Lookup, not_found, failed, found, WriteResult, written, missing, duplicate, write_failed,
  Exec, is_refused, execute,
}
use cqu_netprobe_gateway.Store.Table.{append, find, update, delete, has}

-- A row as the schema has it: seconds of Unix time, and a flag as a number.
pub record ProbeRow : Type 0 where
  pub id : ℕ
  pub probe_id : String
  pub token_hash : String
  pub campus_code : String
  pub campus_name : String
  pub building_group_code : String
  pub building_group_name : String
  pub building_code : String
  pub building_name : String
  pub network_type : String
  pub enabled : ℕ
  pub description : String
  pub created_at : ℕ
  pub updated_at : ℕ
  pub rotated_at : ℕ
  pub created_via : String

-- The rows and the value that AUTOINCREMENT gives next.
pub record ProbeTable : Type 0 where
  pub rows : List ProbeRow
  pub next_id : ℕ

abbrev pub probe_id_of : ProbeRow → String
probe_id_of r = r.probe_id

abbrev pub token_hash_of : ProbeRow → String
token_hash_of r = r.token_hash

abbrev pub unix_or_zero : ℕ → Time
unix_or_zero sec = if leb sec 0 then 0 else from_unix sec

abbrev pub bool_to_int : Bool → ℕ
bool_to_int b = if b then 1 else 0

abbrev pub created_via_or_default : String → String
created_via_or_default v = if v == "public" then "public" else "admin"

unfoldable pub scan_probe : ProbeRow → Probe
scan_probe r = record {
  id = r.id;
  probe_id = r.probe_id;
  token_hash = r.token_hash;
  campus_code = r.campus_code;
  campus_name = r.campus_name;
  building_group_code = r.building_group_code;
  building_group_name = r.building_group_name;
  building_code = r.building_code;
  building_name = r.building_name;
  network_type = r.network_type;
  enabled = not (eqb r.enabled 0);
  description = r.description;
  rotated_at = unix_or_zero r.rotated_at;
  created_via = r.created_via;
  created_at = from_unix r.created_at;
  updated_at = from_unix r.updated_at;
}

-- `sql.ErrNoRows` becomes `ErrNotFound`.
abbrev pub scan_found : Option ProbeRow → Lookup Probe
scan_found none = not_found
scan_found (some r) = found (scan_probe r)

unfoldable pub probe_by_token_hash : Bool → ProbeTable → String → Lookup Probe
probe_by_token_hash fails t hash =
    if fails then failed else scan_found (find token_hash_of hash t.rows)

unfoldable pub get_probe : Bool → ProbeTable → String → Lookup Probe
get_probe fails t probe_id = if fails then failed else scan_found (find probe_id_of probe_id t.rows)

unfoldable pub list_probes : Bool → ProbeTable → Option (List Probe)
list_probes fails t = if fails then none else some (map scan_probe (sort_by probe_id_of t.rows))

unfoldable pub count_probes : Bool → ProbeTable → Option ℕ
count_probes fails t = if fails then none else some (length t.rows)

-- The stamps that `CreateProbe` sets on its argument.
unfoldable pub stamp : Time → Probe → Probe
stamp now p =
    let at = if is_zero p.created_at then from_unix (unix now) else p.created_at in
    record p { created_at = at; updated_at = at }

-- The values of the INSERT.
unfoldable pub new_row : ℕ → Probe → ProbeRow
new_row id p = record {
  id = id;
  probe_id = p.probe_id;
  token_hash = p.token_hash;
  campus_code = p.campus_code;
  campus_name = p.campus_name;
  building_group_code = p.building_group_code;
  building_group_name = p.building_group_name;
  building_code = p.building_code;
  building_name = p.building_name;
  network_type = p.network_type;
  enabled = bool_to_int p.enabled;
  description = p.description;
  created_at = unix p.created_at;
  updated_at = unix p.updated_at;
  rotated_at = 0;
  created_via = created_via_or_default p.created_via;
}

unfoldable pub insert_row : ProbeTable → Probe → ProbeTable
insert_row t p = record { rows = append t.rows (new_row t.next_id p); next_id = t.next_id + 1 }

-- `probe_id` and `token_hash` are UNIQUE.
abbrev pub is_taken : ProbeTable → Probe → Bool
is_taken t p = has probe_id_of p.probe_id t.rows || has token_hash_of p.token_hash t.rows

-- The row read back, for its number.
unfoldable pub read_back : Probe → Lookup Probe → WriteResult × Probe
read_back p (found got) = (written, record p { id = got.id })
read_back p not_found = (missing, p)
read_back p failed = (write_failed, p)

-- The table, what is returned, and the argument as it is left.
unfoldable pub create_probe :
    Bool → Bool → Time → ProbeTable → Probe → ProbeTable × (WriteResult × Probe)
create_probe insert_fails read_fails now t p =
    let q = stamp now p in
    if insert_fails
    then (t, (write_failed, q))
    else if is_taken t q
    then (t, (duplicate, q))
    else (insert_row t q, read_back q (get_probe read_fails (insert_row t q) q.probe_id))

abbrev pub with_enabled : ℕ → Bool → ProbeRow → ProbeRow
with_enabled now enabled r = record r { enabled = bool_to_int enabled; updated_at = now }

unfoldable pub set_probe_enabled :
    Exec → Time → ProbeTable → String → Bool → ProbeTable × WriteResult
set_probe_enabled driver now t probe_id enabled =
    execute driver t
      (record t { rows = update probe_id_of probe_id (with_enabled (unix now) enabled) t.rows })
      (has probe_id_of probe_id t.rows)

abbrev pub with_token : ℕ → ℕ → String → ProbeRow → ProbeRow
with_token updated rotated hash r = record r {
  token_hash = hash;
  updated_at = updated;
  rotated_at = rotated;
}

-- The UPDATE would give two rows one token hash.
abbrev pub is_taken_elsewhere : ProbeTable → String → String → Bool
is_taken_elsewhere t probe_id hash =
    has probe_id_of probe_id t.rows && has token_hash_of hash (delete probe_id_of probe_id t.rows)

-- The clock is read once for each of the two stamps.
unfoldable pub update_probe_token :
    Exec → Time → Time → ProbeTable → String → String → ProbeTable × WriteResult
update_probe_token driver now then_now t probe_id hash =
    if not (is_refused driver) && is_taken_elsewhere t probe_id hash
    then (t, duplicate)
    else execute driver t
        (record t {
          rows = update probe_id_of probe_id (with_token (unix now) (unix then_now) hash) t.rows;
        })
        (has probe_id_of probe_id t.rows)

unfoldable pub delete_probe : Exec → ProbeTable → String → ProbeTable × WriteResult
delete_probe driver t probe_id =
    execute driver t (record t { rows = delete probe_id_of probe_id t.rows })
      (has probe_id_of probe_id t.rows)

-- All that a statement on the table computes with.
unfoldable pub probes_run_statements : Unit {0}
unfolding scan_probe probe_by_token_hash get_probe list_probes count_probes stamp new_row insert_row
    read_back create_probe set_probe_enabled update_probe_token delete_probe execute find update
    delete
probes_run_statements = tt

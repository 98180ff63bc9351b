-- ===== src/Store/Targets.antt =====
-- internal/store/targets.go: the tables of targets and of the measurement types permitted for each.
mod Tests
pub mod Types
pub mod Dispatch
pub mod Allowed
pub mod Queries
pub mod Replaced
use cqu_netprobe_gateway.Prelude.{
  ℕ, ◌+◌, String, Bool, true, false, not, ◌&&◌, ◌||◌, Option, none, some, List, [], ◌∷◌, ◌++◌, map,
  ◌==◌, eqb, if◌then◌else◌,
}
use cqu_netprobe_gateway.Prelude.Sort.{sort_by}
use cqu_netprobe_gateway.Prelude.GoMap.{GoMap, lookup, insert}
use cqu_netprobe_gateway.Prelude.Text.Split.{sql_trim}
use cqu_netprobe_gateway.Prelude.Time.{Time, unix, from_unix}
use cqu_netprobe_gateway.Protocol.Types.{Allowlist}
use cqu_netprobe_gateway.Store.{
  StoredTarget, WriteResult, written, missing, duplicate, in_use, write_failed, Exec, ran, refused,
  uncounted, is_refused, execute, Transaction, committed, in_transaction,
}
use cqu_netprobe_gateway.Store.Probes.{bool_to_int}
use cqu_netprobe_gateway.Store.Table.{append, find, select, update, delete, has, is_member}

pub record Target : Type 0 where
  pub id : ℕ
  pub target_id : String
  pub display_name : String
  pub address : String
  pub description : String
  pub enabled : Bool
  pub probe_types : List String
  pub created_at : Time
  pub updated_at : Time

pub record TargetRow : Type 0 where
  pub id : ℕ
  pub target_id : String
  pub display_name : String
  pub address : String
  pub description : String
  pub enabled : ℕ
  pub created_at : ℕ
  pub updated_at : ℕ

-- A row of target_probe_types.
abbrev pub TypeRow : Type 0
TypeRow = String × String

pub record TargetTables : Type 0 where
  pub targets : List TargetRow
  pub types : List TypeRow
  pub next_id : ℕ

abbrev pub target_id_of : TargetRow → String
target_id_of r = r.target_id

abbrev pub type_target : TypeRow → String
type_target r = r.0

abbrev pub type_name : TypeRow → String
type_name r = r.1

-- The types of one target, in the order of the table.
abbrev pub types_of : String → List TypeRow → List String
types_of id rows = map type_name (select type_target id rows)

-- Ordered by the name of the type.
abbrev pub probe_types_for : TargetTables → String → List String
probe_types_for t id = sort_by (λ s. s) (types_of id t.types)

-- One target as it is read, given the answer to the query for its types.
unfoldable pub scan_target : TargetRow → List String → Target
scan_target r types = record {
  id = r.id;
  target_id = r.target_id;
  display_name = r.display_name;
  address = r.address;
  description = r.description;
  enabled = not (eqb r.enabled 0);
  probe_types = types;
  created_at = from_unix r.created_at;
  updated_at = from_unix r.updated_at;
}

-- The second loop of `ListTargets`, which stops at the first query that fails.
unfoldable pub with_types : (String → Bool) → TargetTables → List TargetRow → Option (List Target)
with_types types_fail t [] = some []
with_types types_fail t (r ∷ rows) =
    let rest = with_types types_fail t rows in
    if types_fail r.target_id then none else elim rest [
      | none ↦ none
      | some out ↦ some (scan_target r (probe_types_for t r.target_id) ∷ out)
    ]

unfoldable pub list_targets : Bool → (String → Bool) → TargetTables → Option (List Target)
list_targets fails types_fail t =
    if fails then none else with_types types_fail t (sort_by target_id_of t.targets)

-- The loop of `insertProbeTypes`; `none` is an error. The pair is the table's primary key.
unfoldable pub insert_probe_types :
    (String → Bool) → String → List String → List String → List TypeRow → Option (List TypeRow)
insert_probe_types fails id seen [] rows = some rows
insert_probe_types fails id seen (pt ∷ types) rows =
    let skip = insert_probe_types fails id seen types rows in
    let go_on = insert_probe_types fails id (pt ∷ seen) types (append rows (id, pt)) in
    if is_member pt seen
    then skip
    else if fails pt || is_member pt (types_of id rows)
    then none
    else go_on

abbrev pub with_type_rows : TargetTables → Option (List TypeRow) → TargetTables × WriteResult
with_type_rows t none = (t, write_failed)
with_type_rows t (some rows) = (record t { types = rows }, written)

unfoldable pub new_target_row : ℕ → ℕ → Target → TargetRow
new_target_row now id tgt = record {
  id = id;
  target_id = tgt.target_id;
  display_name = tgt.display_name;
  address = tgt.address;
  description = tgt.description;
  enabled = bool_to_int tgt.enabled;
  created_at = now;
  updated_at = now;
}

abbrev pub insert_target : ℕ → TargetTables → Target → TargetTables
insert_target now t tgt = record t {
  targets = append t.targets (new_target_row now t.next_id tgt);
  next_id = t.next_id + 1;
}

-- `createTargetTx`: the tables inside the transaction.
unfoldable pub create_target_tx :
    Transaction → Time → TargetTables → Target → TargetTables × WriteResult
create_target_tx d now t tgt =
    if is_refused d.statement
    then (t, write_failed)
    else if has target_id_of tgt.target_id t.targets
    then (t, duplicate)
    else with_type_rows (insert_target (unix now) t tgt)
        (insert_probe_types d.type_fails tgt.target_id [] tgt.probe_types t.types)

unfoldable pub create_target :
    Transaction → Time → TargetTables → Target → TargetTables × WriteResult
unfolding in_transaction create_target_tx
create_target d now t tgt = in_transaction d t (create_target_tx d now t tgt)

unfoldable pub with_metadata : ℕ → Target → TargetRow → TargetRow
with_metadata now tgt r = record r {
  display_name = tgt.display_name;
  address = tgt.address;
  description = tgt.description;
  enabled = bool_to_int tgt.enabled;
  updated_at = now;
}

-- From the DELETE of the old types on.
unfoldable pub replace_types : Transaction → TargetTables → Target → TargetTables × WriteResult
replace_types d t tgt =
    if d.clear_fails
    then (t, write_failed)
    else with_type_rows t (
        insert_probe_types d.type_fails tgt.target_id [] tgt.probe_types
          (delete type_target tgt.target_id t.types))

-- What follows the UPDATE, by its outcome.
unfoldable pub after_update :
    Transaction → Target → TargetTables × WriteResult → TargetTables × WriteResult
after_update d tgt (t, written) = replace_types d t tgt
after_update d tgt (t, missing) = (t, missing)
after_update d tgt (t, duplicate) = (t, duplicate)
after_update d tgt (t, in_use) = (t, in_use)
after_update d tgt (t, write_failed) = (t, write_failed)

unfoldable pub update_target_tx :
    Transaction → Time → TargetTables → Target → TargetTables × WriteResult
unfolding after_update replace_types
update_target_tx d now t tgt = after_update d tgt (
    execute d.statement t
      (record t {
        targets = update target_id_of tgt.target_id (with_metadata (unix now) tgt) t.targets;
      })
      (has target_id_of tgt.target_id t.targets))

unfoldable pub update_target :
    Transaction → Time → TargetTables → Target → TargetTables × WriteResult
update_target d now t tgt = in_transaction d t (update_target_tx d now t tgt)

-- The schema deletes the types with their target.
unfoldable pub delete_target : Exec → TargetTables → String → TargetTables × WriteResult
delete_target driver t id =
    execute driver t
      (record t {
        targets = delete target_id_of id t.targets;
        types = delete type_target id t.types;
      })
      (has target_id_of id t.targets)

-- All that a run on the tables computes with.
unfoldable pub targets_run_statements : Unit {0}
unfolding scan_target with_types list_targets insert_probe_types new_target_row create_target_tx
    create_target with_metadata replace_types after_update update_target_tx update_target
    delete_target execute in_transaction find select update delete sort_by is_member
targets_run_statements = tt

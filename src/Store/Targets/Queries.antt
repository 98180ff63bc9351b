-- ===== src/Store/Targets/Queries.antt =====
-- internal/store/targets.go: the allowlist and the list of targets to measure, each from one join.
use cqu_netprobe_gateway.Prelude.{
  String, Bool, true, not, ◌&&◌, Option, none, some, List, [], ◌∷◌, ◌++◌, ◌==◌, eqb, if◌then◌else◌,
}
use cqu_netprobe_gateway.Prelude.Sort.{sort_by}
use cqu_netprobe_gateway.Prelude.GoMap.{GoMap, lookup, insert}
use cqu_netprobe_gateway.Prelude.Text.Split.{sql_trim}
use cqu_netprobe_gateway.Protocol.Types.{Allowlist}
use cqu_netprobe_gateway.Store.{StoredTarget}
use cqu_netprobe_gateway.Store.Table.{append, find, select}
use cqu_netprobe_gateway.Store.Targets.{TargetRow, TargetTables, target_id_of, probe_types_for}

-- A row of the joins: the target, its address and one type.
pub record JoinRow : Type 0 where
  pub target_id : String
  pub address : String
  pub probe_type : String

abbrev pub join_target : TargetRow → List String → List JoinRow
join_target r [] = []
join_target r (pt ∷ types) =
    record { target_id = r.target_id; address = r.address; probe_type = pt } ∷ join_target r types

-- `FROM targets t JOIN target_probe_types p ... WHERE keep ORDER BY t.target_id, p.probe_type`, with
-- the targets already in order.
unfoldable pub join_rows : (TargetRow → Bool) → TargetTables → List TargetRow → List JoinRow
join_rows keep t [] = []
join_rows keep t (r ∷ rows) =
    let rest = join_rows keep t rows in
    if keep r then join_target r (probe_types_for t r.target_id) ++ rest else rest

abbrev pub is_enabled_row : TargetRow → Bool
is_enabled_row r = eqb r.enabled 1

abbrev pub is_dispatched_row : TargetRow → Bool
is_dispatched_row r = is_enabled_row r && not (sql_trim r.address == "")

abbrev pub or_no_types : Option (GoMap Bool) → GoMap Bool
or_no_types none = []
or_no_types (some m) = m

-- `al[targetID][probeType] = true`, with a map made at the first row of a target.
unfoldable pub allow_row : Allowlist → JoinRow → Allowlist
allow_row al r =
    insert r.target_id (insert r.probe_type true (or_no_types (lookup r.target_id al))) al

unfoldable pub allow_rows : Allowlist → List JoinRow → Allowlist
unfolding allow_row
allow_rows al [] = al
allow_rows al (r ∷ rows) = allow_rows (allow_row al r) rows

unfoldable pub allowlist : Bool → TargetTables → Option Allowlist
allowlist fails t =
    if fails
    then none
    else some (allow_rows [] (join_rows is_enabled_row t (sort_by target_id_of t.targets)))

abbrev pub one_type : JoinRow → StoredTarget
one_type r = record {
  target_id = r.target_id;
  address = r.address;
  probe_types = r.probe_type ∷ [];
}

-- A row goes to the last entry if that is its target's, and begins an entry otherwise.
unfoldable pub fold_row : List StoredTarget → JoinRow → List StoredTarget
fold_row [] r = one_type r ∷ []
fold_row (e ∷ []) r =
    if e.target_id == r.target_id
    then record e { probe_types = append e.probe_types r.probe_type } ∷ []
    else e ∷ one_type r ∷ []
fold_row (e ∷ e' ∷ out) r = e ∷ fold_row (e' ∷ out) r

unfoldable pub fold_rows : List StoredTarget → List JoinRow → List StoredTarget
unfolding fold_row
fold_rows out [] = out
fold_rows out (r ∷ rows) = fold_rows (fold_row out r) rows

unfoldable pub dispatch_targets : Bool → TargetTables → Option (List StoredTarget)
dispatch_targets fails t =
    if fails
    then none
    else some (fold_rows [] (join_rows is_dispatched_row t (sort_by target_id_of t.targets)))

-- All that the two queries compute with.
unfoldable pub queries_run : Unit {0}
unfolding join_rows allow_rows allowlist fold_rows dispatch_targets find select sort_by
queries_run = tt

-- ===== src/Store/Catalog.antt =====
-- internal/store/catalog.go: the campuses and their buildings. The rows of the probes are read where
-- a deletion asks whether a probe still depends on an entry.
mod Tests
pub mod Consistent
pub mod Deletions
pub mod Buildings
pub mod Race
use cqu_netprobe_gateway.Prelude.{
  ℕ, String, Bool, true, false, not, ◌&&◌, ◌||◌, Option, none, some, List, [], ◌∷◌, map, ◌==◌, suc,
  ltb, if◌then◌else◌,
}
use cqu_netprobe_gateway.Prelude.Sort.{sort_by}
use cqu_netprobe_gateway.Prelude.Text.{text_le}
use cqu_netprobe_gateway.Prelude.GoMap.{GoMap, lookup, insert}
use cqu_netprobe_gateway.Prelude.Time.{Time, unix, from_unix}
use cqu_netprobe_gateway.Store.{
  Lookup, not_found, failed, found, WriteResult, written, missing, duplicate, in_use, write_failed,
  Exec, is_refused, execute, Transaction, in_transaction,
}
use cqu_netprobe_gateway.Store.Table.{append, find, select, update, delete, count, has, is_member}
use cqu_netprobe_gateway.Store.Probes.{ProbeRow}

pub record Campus : Type 0 where
  pub code : String
  pub name : String
  pub created_at : Time
  pub updated_at : Time

pub record Building : Type 0 where
  pub code : String
  pub campus_code : String
  pub building_group_code : String
  pub building_group_name : String
  pub name : String
  pub created_at : Time
  pub updated_at : Time

pub record BuildingGroup : Type 0 where
  pub code : String
  pub name : String

-- Rows hold seconds of Unix time.
pub record CampusRow : Type 0 where
  pub code : String
  pub name : String
  pub created_at : ℕ
  pub updated_at : ℕ

pub record BuildingRow : Type 0 where
  pub code : String
  pub campus_code : String
  pub building_group_code : String
  pub building_group_name : String
  pub name : String
  pub created_at : ℕ
  pub updated_at : ℕ

pub record Catalog : Type 0 where
  pub campuses : List CampusRow
  pub buildings : List BuildingRow

abbrev pub campus_code_of : CampusRow → String
campus_code_of r = r.code

abbrev pub building_code_of : BuildingRow → String
building_code_of r = r.code

abbrev pub building_campus_of : BuildingRow → String
building_campus_of r = r.campus_code

abbrev pub probe_campus_of : ProbeRow → String
probe_campus_of r = r.campus_code

abbrev pub probe_building_of : ProbeRow → String
probe_building_of r = r.building_code

unfoldable pub scan_campus : CampusRow → Campus
scan_campus r = record {
  code = r.code;
  name = r.name;
  created_at = from_unix r.created_at;
  updated_at = from_unix r.updated_at;
}

unfoldable pub scan_building : BuildingRow → Building
scan_building r = record {
  code = r.code;
  campus_code = r.campus_code;
  building_group_code = r.building_group_code;
  building_group_name = r.building_group_name;
  name = r.name;
  created_at = from_unix r.created_at;
  updated_at = from_unix r.updated_at;
}

abbrev pub campus_found : Option CampusRow → Lookup Campus
campus_found none = not_found
campus_found (some r) = found (scan_campus r)

abbrev pub building_found : Option BuildingRow → Lookup Building
building_found none = not_found
building_found (some r) = found (scan_building r)

unfoldable pub list_campuses : Bool → Catalog → Option (List Campus)
list_campuses fails c =
    if fails then none else some (map scan_campus (sort_by campus_code_of c.campuses))

unfoldable pub get_campus : Bool → Catalog → String → Lookup Campus
get_campus fails c code =
    if fails then failed else campus_found (find campus_code_of code c.campuses)

unfoldable pub create_campus : Bool → Time → Catalog → Campus → Catalog × WriteResult
create_campus fails now c campus =
    if fails
    then (c, write_failed)
    else if has campus_code_of campus.code c.campuses
    then (c, duplicate)
    else (
      record c {
        campuses = append c.campuses (record {
          code = campus.code;
          name = campus.name;
          created_at = unix now;
          updated_at = unix now;
        });
      },
      written,
    )

abbrev pub with_campus_name : ℕ → String → CampusRow → CampusRow
with_campus_name now name r = record r { name = name; updated_at = now }

unfoldable pub update_campus_name : Exec → Time → Catalog → String → String → Catalog × WriteResult
update_campus_name driver now c code name =
    execute driver c
      (record c {
        campuses = update campus_code_of code (with_campus_name (unix now) name) c.campuses;
      })
      (has campus_code_of code c.campuses)

-- `SELECT code FROM buildings WHERE campus_code = ?`.
abbrev pub buildings_of : String → Catalog → List String
buildings_of code c = map building_code_of (select building_campus_of code c.buildings)

-- The count spans both references of a probe.
unfoldable pub count_dependents : String → List String → List ProbeRow → ℕ
count_dependents code buildings [] = 0
count_dependents code buildings (r ∷ rows) =
    let rest = count_dependents code buildings rows in
    if (r.campus_code == code) || is_member r.building_code buildings then suc rest else rest

abbrev pub without_buildings : String → Catalog → Catalog
without_buildings code c = record c { buildings = delete building_campus_of code c.buildings }

-- The statements of the transaction of `DeleteCampus`, behind its beginning.
unfoldable pub delete_campus_tx :
    Bool → Transaction → Catalog → List ProbeRow → String → Catalog × WriteResult
delete_campus_tx count_fails d c probes code =
    if count_fails
    then (c, write_failed)
    else if ltb 0 (count_dependents code (buildings_of code c) probes)
    then (c, in_use)
    else if d.clear_fails
    then (c, write_failed)
    else execute d.statement (without_buildings code c)
        (record (without_buildings code c) { campuses = delete campus_code_of code c.campuses })
        (has campus_code_of code c.campuses)

unfoldable pub delete_campus :
    Bool → Transaction → Catalog → List ProbeRow → String → Catalog × WriteResult
unfolding in_transaction delete_campus_tx
delete_campus count_fails d c probes code =
    in_transaction d c (delete_campus_tx count_fails d c probes code)

-- All that a run on the catalog computes with.
unfoldable pub catalog_run_statements : Unit {0}
unfolding scan_campus scan_building list_campuses get_campus create_campus update_campus_name
    count_dependents delete_campus_tx delete_campus execute in_transaction find select update delete
    sort_by is_member
catalog_run_statements = tt

-- ===== src/Store/Catalog/Buildings.antt =====
-- internal/store/catalog.go: the operations on buildings.
use cqu_netprobe_gateway.Prelude.{
  ℕ, String, Bool, not, Option, none, some, List, [], ◌∷◌, map, ltb, if◌then◌else◌,
}
use cqu_netprobe_gateway.Prelude.Sort.{sort_by}
use cqu_netprobe_gateway.Prelude.Text.{text_le}
use cqu_netprobe_gateway.Prelude.GoMap.{GoMap, lookup, insert}
use cqu_netprobe_gateway.Prelude.Time.{Time, unix}
use cqu_netprobe_gateway.Store.{
  Lookup, failed, WriteResult, written, duplicate, in_use, write_failed, Exec, execute,
}
use cqu_netprobe_gateway.Store.Table.{append, find, select, update, delete, count, has}
use cqu_netprobe_gateway.Store.Probes.{ProbeRow}
use cqu_netprobe_gateway.Store.Catalog.{
  BuildingGroup, Building, BuildingRow, Catalog, campus_code_of, building_code_of,
  building_campus_of, probe_campus_of, probe_building_of, scan_building, building_found,
}

unfoldable pub list_buildings : Bool → Catalog → Option (List Building)
list_buildings fails c =
    if fails
    then none
    else some
        (map scan_building (sort_by building_campus_of (sort_by building_code_of c.buildings)))

unfoldable pub list_buildings_by_campus : Bool → Catalog → String → Option (List Building)
list_buildings_by_campus fails c campus_code =
    if fails
    then none
    else some (
        map scan_building
          (sort_by building_code_of (select building_campus_of campus_code c.buildings)))

unfoldable pub get_building : Bool → Catalog → String → Lookup Building
get_building fails c code =
    if fails then failed else building_found (find building_code_of code c.buildings)

-- The code is the primary key, and the campus a foreign key.
unfoldable pub create_building : Bool → Time → Catalog → Building → Catalog × WriteResult
create_building fails now c b =
    if fails
    then (c, write_failed)
    else if has building_code_of b.code c.buildings
    then (c, duplicate)
    else if not (has campus_code_of b.campus_code c.campuses)
    then (c, write_failed)
    else (
      record c {
        buildings = append c.buildings (record {
          code = b.code;
          campus_code = b.campus_code;
          building_group_code = b.building_group_code;
          building_group_name = b.building_group_name;
          name = b.name;
          created_at = unix now;
          updated_at = unix now;
        });
      },
      written,
    )

abbrev pub with_building : ℕ → Building → BuildingRow → BuildingRow
with_building now b r = record r {
  building_group_code = b.building_group_code;
  building_group_name = b.building_group_name;
  name = b.name;
  updated_at = now;
}

unfoldable pub update_building : Exec → Time → Catalog → Building → Catalog × WriteResult
update_building driver now c b =
    execute driver c
      (record c {
        buildings = update building_code_of b.code (with_building (unix now) b) c.buildings;
      })
      (has building_code_of b.code c.buildings)

unfoldable pub campus_probe_count : Bool → List ProbeRow → String → Option ℕ
campus_probe_count fails probes code =
    if fails then none else some (count probe_campus_of code probes)

unfoldable pub building_probe_count : Bool → List ProbeRow → String → Option ℕ
building_probe_count fails probes code =
    if fails then none else some (count probe_building_of code probes)

-- `DeleteBuilding` once it has the count, which the DELETE does not ask for again.
unfoldable pub delete_counted : Exec → Catalog → String → Option ℕ → Catalog × WriteResult
delete_counted driver c code none = (c, write_failed)
delete_counted driver c code (some n) =
    if ltb 0 n
    then (c, in_use)
    else execute driver c (record c { buildings = delete building_code_of code c.buildings })
        (has building_code_of code c.buildings)

unfoldable pub delete_building :
    Bool → Exec → Catalog → List ProbeRow → String → Catalog × WriteResult
unfolding delete_counted building_probe_count
delete_building count_fails driver c probes code =
    delete_counted driver c code (building_probe_count count_fails probes code)

-- `MAX(building_group_name)`.
abbrev pub max_name : String → Option String → String
max_name name none = name
max_name name (some old) = if text_le old name then name else old

-- `GROUP BY building_group_code`.
unfoldable pub group_names : List BuildingRow → GoMap String
group_names [] = []
group_names (r ∷ rows) =
    insert r.building_group_code
      (max_name r.building_group_name (lookup r.building_group_code (group_names rows)))
      (group_names rows)

abbrev pub building_group : String × String → BuildingGroup
building_group e = record { code = e.0; name = e.1 }

unfoldable pub building_groups : Bool → Catalog → Option (List BuildingGroup)
unfolding group_names
building_groups fails c =
    if fails then none else some (map building_group (sort_by (λ e. e.0) (group_names c.buildings)))

-- All that a run on the buildings computes with.
unfoldable pub buildings_run_statements : Unit {0}
unfolding scan_building list_buildings list_buildings_by_campus get_building create_building
    update_building campus_probe_count building_probe_count delete_counted delete_building
    building_groups execute find select update delete count sort_by
buildings_run_statements = tt

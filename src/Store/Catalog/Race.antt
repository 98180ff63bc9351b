-- ===== src/Store/Catalog/Race.antt =====
-- What another request may do between the two statements of a deletion.
use cqu_netprobe_gateway.Prelude.{
  true, false, none, some, List, [], ◌∷◌, ◌≡◌, refl, sym, ◌∙◌, arith, eq_refl, All,
}
use cqu_netprobe_gateway.Store.{ran, execute, written}
use cqu_netprobe_gateway.Store.Table.{append, delete, count, has, find-delete}
use cqu_netprobe_gateway.Store.Probes.{ProbeRow}
use cqu_netprobe_gateway.Store.Catalog.{BuildingRow, Catalog, building_code_of, probe_building_of}
use cqu_netprobe_gateway.Store.Catalog.Buildings.{building_probe_count, delete_counted}
use cqu_netprobe_gateway.Store.Catalog.Consistent.{IsLocated}

-- `DeleteBuilding` counts and deletes in two statements. Where a probe is created at the building
-- between them, the deletion reports success and the probe's building is gone, however the catalog
-- stood before.
pub delete_building_race :
    (c : Catalog) (probes : List ProbeRow) (r : ProbeRow)
    → count probe_building_of r.building_code probes ≡ 0
    → has building_code_of r.building_code c.buildings ≡ true
    → (c' : Catalog) × (delete_counted ran c r.building_code
          (building_probe_count false probes r.building_code)
        ≡ (c', written))
      × ¬ All (IsLocated c') (append probes r)
unfolding delete_counted execute building_probe_count
delete_building_race c probes r unused known = (
  record c { buildings = delete building_code_of r.building_code c.buildings },
  rw (unused, known) refl,
  λ all. gone (last (IsLocated without) probes all),
)
  where
    last : (P : ProbeRow → Type 0) (rows : List ProbeRow) → All P (append rows r) → P r
    last P [] a = a.0
    last P (x ∷ rows) a = last P rows a.1

    without : Catalog
    without = record c { buildings = delete building_code_of r.building_code c.buildings }

    none_some : {b : BuildingRow} → none ≡ some b → ⊥
    none_some e = absurd (ground (arith, e))

    gone :
        IsLocated (record c { buildings = delete building_code_of r.building_code c.buildings }) r
        → ⊥
    gone h = none_some (
        sym (
          find-delete building_code_of r.building_code r.building_code c.buildings
          ∙ rw (eq_refl r.building_code) refl)
        ∙ h.known)

-- ===== src/Store/Catalog/Consistent.antt =====
-- Referential integrity: what the schema and the checks of the code keep together.
use cqu_netprobe_gateway.Prelude.{
  String, Bool, true, false, Option, none, some, List, [], ◌∷◌, ◌≡◌, refl, ap, ◌∙◌, inl, inr, arith,
  Bool-cases, ◌==◌, if◌then◌else◌, All, All-imp,
}
use cqu_netprobe_gateway.Prelude.Sort.{HasDistinctKeys}
use cqu_netprobe_gateway.Prelude.Time.{Time, unix}
use cqu_netprobe_gateway.Store.{Exec, Transaction}
use cqu_netprobe_gateway.Store.Table.{
  append, find, update, has, is_found, map_found, find-update, All-append, All-update,
}
use cqu_netprobe_gateway.Store.Table.Unique.{append-HasDistinctKeys, update-HasDistinctKeys}
use cqu_netprobe_gateway.Store.Probes.{ProbeRow}
use cqu_netprobe_gateway.Store.Probes.Unique.{not_has}
use cqu_netprobe_gateway.Store.Catalog.{
  Campus, Building, CampusRow, BuildingRow, Catalog, campus_code_of, building_code_of,
  create_campus, with_campus_name, update_campus_name, delete_campus,
}
use cqu_netprobe_gateway.Store.Catalog.Buildings.{
  create_building, with_building, update_building, delete_building,
}

-- The probe's building is in the catalog, under the probe's campus.
pub record IsLocated (c : Catalog) (r : ProbeRow) : Type 0 where
  pub building : BuildingRow
  pub known : find building_code_of r.building_code c.buildings ≡ some building
  pub agrees : building.campus_code ≡ r.campus_code

abbrev pub IsHoused : Catalog → BuildingRow → Type 0
IsHoused c b = has campus_code_of b.campus_code c.campuses ≡ true

pub record IsConsistent (probes : List ProbeRow) (c : Catalog) : Type 0 where
  pub campus_codes : HasDistinctKeys campus_code_of c.campuses
  pub building_codes : HasDistinctKeys building_code_of c.buildings
  pub housed : All (IsHoused c) c.buildings
  pub located : All (IsLocated c) probes

-- One operation of the store on the catalog, with what the driver does.
pub data Call : Type 0 where
  create_campus_call : Bool → Time → Campus → Call
  name_campus_call : Exec → Time → String → String → Call
  delete_campus_call : Bool → Transaction → String → Call
  create_building_call : Bool → Time → Building → Call
  update_building_call : Exec → Time → Building → Call
  delete_building_call : Bool → Exec → String → Call

abbrev pub step : List ProbeRow → Catalog → Call → Catalog
step probes c (create_campus_call fails now campus) = (create_campus fails now c campus).0
step probes c (name_campus_call driver now code name) =
    (update_campus_name driver now c code name).0
step probes c (delete_campus_call count_fails d code) =
    (delete_campus count_fails d c probes code).0
step probes c (create_building_call fails now b) = (create_building fails now c b).0
step probes c (update_building_call driver now b) = (update_building driver now c b).0
step probes c (delete_building_call count_fails driver code) =
    (delete_building count_fails driver c probes code).0

abbrev pub catalog_run : List ProbeRow → Catalog → List Call → Catalog
catalog_run probes c [] = c
catalog_run probes c (call ∷ calls) = catalog_run probes (step probes c call) calls

has-append :
    (code : String) (rows : List CampusRow) (r : CampusRow)
    → has campus_code_of code rows ≡ true
    → has campus_code_of code (append rows r) ≡ true
unfolding find
has-append code [] r h = absurd (ground (arith, h))
has-append code (x ∷ rows) r h = ground (arith, has-append code rows r)

find-append_kept :
    (code : String) (rows : List BuildingRow) (r b : BuildingRow)
    → find building_code_of code rows ≡ some b
    → find building_code_of code (append rows r) ≡ some b
unfolding find
find-append_kept code [] r b h = absurd (ground (arith, h))
find-append_kept code (x ∷ rows) r b h = ground (arith, find-append_kept code rows r b)

pub create_campus-IsConsistent :
    (probes : List ProbeRow) (fails : Bool) (now : Time) (c : Catalog) (campus : Campus)
    → IsConsistent probes c
    → IsConsistent probes (create_campus fails now c campus).0
unfolding create_campus
create_campus-IsConsistent probes true now c campus w = w
create_campus-IsConsistent probes false now c campus w =
    elim (Bool-cases (has campus_code_of campus.code c.campuses)) [
      | inl e ↦ rw e w
      | inr e ↦ rw e (record {
        campus_codes =
            append-HasDistinctKeys campus_code_of c.campuses _ (not_has _ e) w.campus_codes;
        building_codes = w.building_codes;
        housed = All-imp (λ b h. has-append b.campus_code c.campuses _ h) c.buildings w.housed;
        located =
            All-imp (λ r h. record { building = h.building; known = h.known; agrees = h.agrees })
              probes w.located;
      })
    ]

pub renamed-IsConsistent :
    (probes : List ProbeRow) (now : Time) (c : Catalog) (code name : String)
    → IsConsistent probes c
    → IsConsistent probes (record c {
      campuses = update campus_code_of code (with_campus_name (unix now) name) c.campuses;
    })
renamed-IsConsistent probes now c code name w = record {
  campus_codes =
      update-HasDistinctKeys campus_code_of campus_code_of code (with_campus_name (unix now) name)
        c.campuses (λ a. refl) w.campus_codes;
  building_codes = w.building_codes;
  housed =
      All-imp
        (λ b h.
          ap is_found (
            find-update campus_code_of code b.campus_code (with_campus_name (unix now) name)
              c.campuses (λ a. refl))
          ∙ still (code == b.campus_code) (find campus_code_of b.campus_code c.campuses) h)
        c.buildings w.housed;
  located =
      All-imp (λ r h. record { building = h.building; known = h.known; agrees = h.agrees }) probes
        w.located;
}
  where
    still :
        (here : Bool) (o : Option CampusRow)
        → is_found o ≡ true
        → is_found (if here then map_found (with_campus_name (unix now) name) o else o) ≡ true
    still true none h = h
    still true (some a) h = refl
    still false o h = h

pub create_building-IsConsistent :
    (probes : List ProbeRow) (fails : Bool) (now : Time) (c : Catalog) (b : Building)
    → IsConsistent probes c
    → IsConsistent probes (create_building fails now c b).0
unfolding create_building
create_building-IsConsistent probes true now c b w = w
create_building-IsConsistent probes false now c b w =
    elim (Bool-cases (has building_code_of b.code c.buildings)) [
      | inl e ↦ rw e w
      | inr e ↦ elim (Bool-cases (has campus_code_of b.campus_code c.campuses)) [
        | inl g ↦
            rw (e, g)
              (record {
                campus_codes = w.campus_codes;
                building_codes =
                    append-HasDistinctKeys building_code_of c.buildings _ (not_has _ e)
                      w.building_codes;
                housed = All-append building_code_of (IsHoused c) c.buildings _ w.housed g;
                located =
                    All-imp
                      (λ r h. record {
                        building = h.building;
                        known = find-append_kept r.building_code c.buildings _ h.building h.known;
                        agrees = h.agrees;
                      })
                      probes w.located;
              })
        | inr g ↦ rw (e, g) w
      ]
    ]

pub changed-IsConsistent :
    (probes : List ProbeRow) (now : Time) (c : Catalog) (b : Building)
    → IsConsistent probes c
    → IsConsistent probes (record c {
      buildings = update building_code_of b.code (with_building (unix now) b) c.buildings;
    })
changed-IsConsistent probes now c b w = record {
  campus_codes = w.campus_codes;
  building_codes =
      update-HasDistinctKeys building_code_of building_code_of b.code (with_building (unix now) b)
        c.buildings (λ a. refl) w.building_codes;
  housed =
      All-update building_code_of (IsHoused c) b.code (with_building (unix now) b) c.buildings
        (λ a h. h) w.housed;
  located = All-imp (λ r h. moved r h (b.code == r.building_code) refl) probes w.located;
}
  where
    c' : Catalog
    c' = record c {
      buildings = update building_code_of b.code (with_building (unix now) b) c.buildings;
    }

    moved :
        (r : ProbeRow)
        → IsLocated c r
        → (here : Bool) → (b.code == r.building_code) ≡ here
        → IsLocated c' r
    moved r h true e = record {
      building = with_building (unix now) b h.building;
      known =
          find-update building_code_of b.code r.building_code (with_building (unix now) b)
            c.buildings (λ a. refl)
          ∙ rw e (ap (map_found (with_building (unix now) b)) h.known);
      agrees = h.agrees;
    }
    moved r h false e = record {
      building = h.building;
      known =
          find-update building_code_of b.code r.building_code (with_building (unix now) b)
            c.buildings (λ a. refl)
          ∙ rw e h.known;
      agrees = h.agrees;
    }

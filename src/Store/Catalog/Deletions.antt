-- ===== src/Store/Catalog/Deletions.antt =====
-- Deleting from the catalog leaves no probe behind, as long as nothing comes between the count and
-- the deletion.
use cqu_netprobe_gateway.Prelude.{
  ◌⊎◌, ltb, String, Bool, true, false, ◌||◌, List, [], ◌∷◌, ◌≡◌, ◌≢◌, refl, sym, ap, subst, ◌∙◌,
  inl, inr, arith, Bool-cases, ◌==◌, eq_iff, All, All-imp,
}
use cqu_netprobe_gateway.Store.{Exec, ran, refused, uncounted, execute, Transaction, in_transaction}
use cqu_netprobe_gateway.Store.Table.{
  delete, count, has, is_member, is_found, find-delete, find-column, count-zero_iff, All-delete,
  All-delete_imp,
}
use cqu_netprobe_gateway.Store.Table.Unique.{delete-HasDistinctKeys}
use cqu_netprobe_gateway.Store.Table.Columns.{found_unique, find-delete_other}
use cqu_netprobe_gateway.Store.Probes.{ProbeRow}
use cqu_netprobe_gateway.Store.Probes.Unique.{execute_cases}
use cqu_netprobe_gateway.Store.Catalog.{
  Catalog, campus_code_of, building_code_of, building_campus_of, probe_building_of,
  update_campus_name, buildings_of, count_dependents, without_buildings, delete_campus,
}
use cqu_netprobe_gateway.Store.Catalog.Buildings.{update_building, delete_building}
use cqu_netprobe_gateway.Store.Catalog.Consistent.{
  IsLocated, IsHoused, IsConsistent, Call, create_campus_call, name_campus_call, delete_campus_call,
  create_building_call, update_building_call, delete_building_call, step, catalog_run,
  create_campus-IsConsistent, renamed-IsConsistent, create_building-IsConsistent,
  changed-IsConsistent,
}

abbrev without_campus : String → Catalog → Catalog
without_campus code c = record (without_buildings code c) {
  campuses = delete campus_code_of code c.campuses;
}

-- A probe that the count leaves out.
abbrev Spared : String → List String → ProbeRow → Type 0
Spared code buildings r = (r.campus_code ≢ code) × (is_member r.building_code buildings ≡ false)

count_dependents_zero :
    (code : String) (buildings : List String) (rows : List ProbeRow)
    → ltb 0 (count_dependents code buildings rows) ≡ false
    → All (Spared code buildings) rows
unfolding count_dependents
count_dependents_zero code buildings [] h = tt
count_dependents_zero code buildings (r ∷ rows) h =
    elim (Bool-cases ((r.campus_code == code) || is_member r.building_code buildings)) [
      | inl e ↦ absurd (ground (arith, rw e at h))
      | inr e ↦ (
        (λ q. ground (arith, e, eq_iff r.campus_code code, q), ground (arith, e)),
        count_dependents_zero code buildings rows (rw e at h),
      )
    ]

-- A deletion of a campus leaves the catalog alone, or found that no probe depends on it.
pub delete_campus_result :
    (count_fails : Bool) (d : Transaction) (c : Catalog) (probes : List ProbeRow) (code : String)
    → ((delete_campus count_fails d c probes code).0 ≡ c)
      ⊎ ((ltb 0 (count_dependents code (buildings_of code c) probes) ≡ false)
          × ((delete_campus count_fails d c probes code).0 ≡ without_campus code c))
unfolding delete_campus in_transaction execute
delete_campus_result true d c probes code = inl (ground arith)
delete_campus_result false d c probes code =
    elim (Bool-cases (ltb 0 (count_dependents code (buildings_of code c) probes))) [
      | inl e ↦ inl (rw e (ground arith))
      | inr e ↦ by_driver d.statement refl e
    ]
  where
    by_driver :
        (x : Exec)
        → d.statement ≡ x
        → ltb 0 (count_dependents code (buildings_of code c) probes) ≡ false
        → ((delete_campus false d c probes code).0 ≡ c)
          ⊎ ((ltb 0 (count_dependents code (buildings_of code c) probes) ≡ false)
              × ((delete_campus false d c probes code).0 ≡ without_campus code c))
    by_driver ran q e = elim (Bool-cases (d.begin_fails || d.clear_fails || d.commit_fails)) [
      | inl g ↦ inl (rw (e, q) (ground (arith, g)))
      | inr g ↦ elim (Bool-cases (has campus_code_of code c.campuses)) [
        | inl k ↦ inr (e, rw (e, q, k) (ground (arith, g)))
        | inr k ↦ inl (rw (e, q, k) (ground (arith, g)))
      ]
    ]
    by_driver refused q e = inl (rw (e, q) (ground arith))
    by_driver uncounted q e = inl (rw (e, q) (ground arith))

without_campus-IsConsistent :
    (probes : List ProbeRow) (c : Catalog) (code : String)
    → ltb 0 (count_dependents code (buildings_of code c) probes) ≡ false
    → IsConsistent probes c
    → IsConsistent probes (without_campus code c)
without_campus-IsConsistent probes c code none_left w = record {
  campus_codes =
      delete-HasDistinctKeys campus_code_of campus_code_of code c.campuses w.campus_codes;
  building_codes =
      delete-HasDistinctKeys building_code_of building_campus_of code c.buildings w.building_codes;
  housed =
      All-delete_imp building_campus_of (IsHoused c) (IsHoused (without_campus code c)) code
        c.buildings
        (λ b ne h.
          ap is_found (find-delete campus_code_of code b.campus_code c.campuses)
          ∙ ground (arith, eq_iff code b.campus_code, ne, h))
        w.housed;
  located =
      All_both probes w.located (count_dependents_zero code (buildings_of code c) probes none_left);
}
  where
    All_both :
        (rows : List ProbeRow)
        → All (IsLocated c) rows
        → All (Spared code (buildings_of code c)) rows
        → All (IsLocated (without_campus code c)) rows
    All_both [] a s = tt
    All_both (r ∷ rows) a s = (
      record {
        building = a.0.building;
        known =
            find-delete_other building_code_of building_campus_of code r.building_code c.buildings (
              All-imp
                (λ y u at e. s.0.0 (
                  sym a.0.agrees
                  ∙ ap building_campus_of (
                      sym (
                        u (
                          e
                          ∙ sym (
                              find-column building_code_of r.building_code c.buildings a.0.building
                                a.0.known))))
                  ∙ at))
                c.buildings
                (found_unique building_code_of building_code_of r.building_code c.buildings
                  a.0.building w.building_codes a.0.known))
            ∙ a.0.known;
        agrees = a.0.agrees;
      },
      All_both rows a.1 s.1,
    )

without_building-IsConsistent :
    (probes : List ProbeRow) (c : Catalog) (code : String)
    → count probe_building_of code probes ≡ 0
    → IsConsistent probes c
    → IsConsistent probes (record c { buildings = delete building_code_of code c.buildings })
without_building-IsConsistent probes c code unused w = record {
  campus_codes = w.campus_codes;
  building_codes =
      delete-HasDistinctKeys building_code_of building_code_of code c.buildings w.building_codes;
  housed = All-delete building_code_of (IsHoused c) code c.buildings w.housed;
  located = keep probes w.located ((count-zero_iff probe_building_of code probes).0 unused);
}
  where
    keep :
        (rows : List ProbeRow)
        → All (IsLocated c) rows
        → All (λ r. r.building_code ≢ code) rows
        → All (IsLocated (record c { buildings = delete building_code_of code c.buildings })) rows
    keep [] a n = tt
    keep (r ∷ rows) a n = (
      record {
        building = a.0.building;
        known =
            find-delete building_code_of code r.building_code c.buildings
            ∙ ground (arith, eq_iff code r.building_code, n.0, a.0.known);
        agrees = a.0.agrees;
      },
      keep rows a.1 n.1,
    )

delete_building-IsConsistent :
    (probes : List ProbeRow) (count_fails : Bool) (driver : Exec) (c : Catalog) (code : String)
    → IsConsistent probes c
    → IsConsistent probes (delete_building count_fails driver c probes code).0
unfolding delete_building
delete_building-IsConsistent probes true driver c code w = w
delete_building-IsConsistent probes false driver c code w =
    elim (Bool-cases (ltb 0 (count probe_building_of code probes))) [
      | inl e ↦ rw e w
      | inr e ↦ rw e (
          execute_cases (IsConsistent probes) driver c _ _ w
            (without_building-IsConsistent probes c code (ground (arith, e)) w))
    ]

pub step-IsConsistent :
    (probes : List ProbeRow) (c : Catalog) (call : Call)
    → IsConsistent probes c
    → IsConsistent probes (step probes c call)
unfolding update_campus_name update_building
step-IsConsistent probes c (create_campus_call fails now campus) w =
    create_campus-IsConsistent probes fails now c campus w
step-IsConsistent probes c (name_campus_call driver now code name) w =
    execute_cases (IsConsistent probes) driver c _ _ w
      (renamed-IsConsistent probes now c code name w)
step-IsConsistent probes c (delete_campus_call count_fails d code) w =
    elim (delete_campus_result count_fails d c probes code) [
      | inl e ↦ subst (IsConsistent probes) (sym e) w
      | inr (none_left, e) ↦
          subst (IsConsistent probes) (sym e)
            (without_campus-IsConsistent probes c code none_left w)
    ]
step-IsConsistent probes c (create_building_call fails now b) w =
    create_building-IsConsistent probes fails now c b w
step-IsConsistent probes c (update_building_call driver now b) w =
    execute_cases (IsConsistent probes) driver c _ _ w (changed-IsConsistent probes now c b w)
step-IsConsistent probes c (delete_building_call count_fails driver code) w =
    delete_building-IsConsistent probes count_fails driver c code w

-- Through every sequence of operations on the catalog, whatever the driver makes of their statements,
-- campus and building codes stay unique, each building keeps its campus, and each probe its building
-- under its own campus.
pub catalog_run-IsConsistent :
    (probes : List ProbeRow) (c : Catalog) (calls : List Call)
    → IsConsistent probes c
    → IsConsistent probes (catalog_run probes c calls)
catalog_run-IsConsistent probes c [] w = w
catalog_run-IsConsistent probes c (call ∷ calls) w =
    catalog_run-IsConsistent probes (step probes c call) calls (step-IsConsistent probes c call w)

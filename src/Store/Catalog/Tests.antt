-- ===== src/Store/Catalog/Tests.antt =====
-- One campus with two buildings, and one probe.
use cqu_netprobe_gateway.Prelude.{String, false, some, List, [], ◌∷◌, ◌≡◌, refl, All}
use cqu_netprobe_gateway.Prelude.GoMap.{insert, lookup}
use cqu_netprobe_gateway.Prelude.Text.{text_le, text_ne}
use cqu_netprobe_gateway.Prelude.Time.{unix_epoch}
use cqu_netprobe_gateway.Store.{written, in_use, ran, uncounted, Transaction}
use cqu_netprobe_gateway.Store.Table.{append}
use cqu_netprobe_gateway.Store.Probes.{ProbeRow}
use cqu_netprobe_gateway.Store.Catalog.{
  Catalog, CampusRow, BuildingRow, delete_campus, catalog_run_statements,
}
use cqu_netprobe_gateway.Store.Catalog.Buildings.{
  buildings_run_statements, building_probe_count, delete_counted, delete_building, building_groups,
}
use cqu_netprobe_gateway.Store.Catalog.Consistent.{
  IsLocated, IsConsistent, Call, create_campus_call, delete_campus_call, delete_building_call,
  catalog_run,
}
use cqu_netprobe_gateway.Store.Catalog.Deletions.{catalog_run-IsConsistent}
use cqu_netprobe_gateway.Store.Catalog.Race.{delete_building_race}

abbrev campus : String → CampusRow
campus code = record { code = code; name = code; created_at = 0; updated_at = 0 }

abbrev building : String → String → String → BuildingRow
building code campus_code group_name = record {
  code = code;
  campus_code = campus_code;
  building_group_code = "g";
  building_group_name = group_name;
  name = code;
  created_at = 0;
  updated_at = 0;
}

abbrev catalog : Catalog
catalog = record {
  campuses = campus "a" ∷ [];
  buildings = building "lib" "a" "North" ∷ building "gym" "a" "Old" ∷ [];
}

abbrev probe_at : String → ProbeRow
probe_at building_code = record {
  id = 1;
  probe_id = "p";
  token_hash = "h";
  campus_code = "a";
  campus_name = "a";
  building_group_code = "g";
  building_group_name = "North";
  building_code = building_code;
  building_name = building_code;
  network_type = "wired";
  enabled = 1;
  description = "";
  created_at = 0;
  updated_at = 0;
  rotated_at = 0;
  created_via = "admin";
}

abbrev probes : List ProbeRow
probes = probe_at "lib" ∷ []

abbrev transaction : Transaction
transaction = record {
  begin_fails = false;
  statement = ran;
  clear_fails = false;
  type_fails = λ pt. false;
  commit_fails = false;
}

used_campus : (delete_campus false transaction catalog probes "a").1 ≡ in_use
unfolding catalog_run_statements buildings_run_statements
used_campus = refl

free_campus :
    (delete_campus false transaction catalog [] "a").0 ≡ record { campuses = []; buildings = [] }
unfolding catalog_run_statements buildings_run_statements
free_campus = refl

used_building : (delete_building false ran catalog probes "lib").1 ≡ in_use
unfolding catalog_run_statements buildings_run_statements
used_building = refl

one_group : building_groups false catalog ≡ some (record { code = "g"; name = "Old" } ∷ [])
unfolding catalog_run_statements buildings_run_statements insert lookup text_le
one_group = refl

abbrev calls : List Call
calls =
    create_campus_call false unix_epoch
      (record { code = "b"; name = "B"; created_at = 0; updated_at = 0 })
    ∷ delete_campus_call false transaction "a"
    ∷ delete_building_call false uncounted "gym"
    ∷ []

catalog-IsConsistent : IsConsistent probes catalog
unfolding catalog_run_statements buildings_run_statements
catalog-IsConsistent = record {
  campus_codes = (tt, tt);
  building_codes = ((text_ne "lib" "gym" refl, tt), (tt, tt));
  housed = (refl, (refl, tt));
  located = (record { building = building "lib" "a" "North"; known = refl; agrees = refl }, tt);
}

catalog_run-IsConsistent_example : IsConsistent probes (catalog_run probes catalog calls)
catalog_run-IsConsistent_example =
    catalog_run-IsConsistent probes catalog calls catalog-IsConsistent

delete_building_race_example :
    (c' : Catalog) × (delete_counted ran catalog "gym" (building_probe_count false probes "gym")
      ≡ (c', written))
    × ¬ All (IsLocated c') (append probes (probe_at "gym"))
unfolding catalog_run_statements buildings_run_statements
delete_building_race_example = delete_building_race catalog probes (probe_at "gym") refl refl

-- ===== src/Metrics/Tests.antt =====
-- A scrape of no probe, and of one that never pushed.
use cqu_netprobe_gateway.Prelude.{true, false, some, [], ◌∷◌, ◌++◌, ◌≡◌}
use cqu_netprobe_gateway.Store.{Probe}
use cqu_netprobe_gateway.Latest
use cqu_netprobe_gateway.Metrics.{collect}
use cqu_netprobe_gateway.Metrics.Scrape.{reports, totals, collect-eq}

abbrev quiet : Probe
quiet = record {
  id = 1;
  probe_id = "dorm-1";
  token_hash = "h";
  campus_code = "a";
  campus_name = "A";
  building_group_code = "g";
  building_group_name = "G";
  building_code = "b";
  building_name = "B";
  network_type = "wired";
  enabled = true;
  description = "";
  rotated_at = 0;
  created_via = "admin";
  created_at = 1;
  updated_at = 1;
}

abbrev empty : Latest.Store
empty = record { entries = [] }

collect-eq_example :
    collect empty 90 30 (some (quiet ∷ []))
    ≡ (reports empty 90 30 (quiet ∷ []) ++ totals empty 90 30 (quiet ∷ []), false)
collect-eq_example = collect-eq empty 90 30 (quiet ∷ [])

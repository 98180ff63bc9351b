-- ===== src/Admin/Tests.antt =====
-- One administrator who logs in and turns a probe off, and then deletes it.
use cqu_netprobe_gateway.Prelude.{◌+◌, ◌*◌, String, false, some, List, [], ◌∷◌, ◌≡◌, refl}
use cqu_netprobe_gateway.Prelude.GoMap.{lookup, insert, erase}
use cqu_netprobe_gateway.Prelude.Time.{second}
use cqu_netprobe_gateway.Store.{ran}
use cqu_netprobe_gateway.Store.Probes.{probes_run_statements}
use cqu_netprobe_gateway.Api.Limiter.{remove}
use cqu_netprobe_gateway.Api.Limiter.Tests.{counting}
use cqu_netprobe_gateway.Latest.{delete}
use cqu_netprobe_gateway.Metrics.{scan_probes, start}
use cqu_netprobe_gateway.Store.Probes.Tests.{one_probe, first, noon}
use cqu_netprobe_gateway.Admin.Session.{Session, get}
use cqu_netprobe_gateway.Admin.Server.{Admin, Reply, redirect, plain, Visit}
use cqu_netprobe_gateway.Admin.Auth.{guarded, require_session, session_from_request, require_csrf}
use cqu_netprobe_gateway.Admin.Auth.Guarded.{GuardCase, guarded-case}
use cqu_netprobe_gateway.Admin.Probes.{
  handle_probe_toggle, handle_probe_delete, probe_handlers_run, count_probe_filter,
}
use cqu_netprobe_gateway.Store.{Transaction}
use cqu_netprobe_gateway.Store.Targets.{TargetTables, targets_run_statements}
use cqu_netprobe_gateway.Admin.Targets.{
  TargetForm, Saving, handle_target_create, target_handlers_run,
}
use cqu_netprobe_gateway.Admin.Campuses.{Around}
use cqu_netprobe_gateway.Admin.Campuses.Kept.{
  CampusRequest, create_request, rename_request, delete_request, handle_all, IsKept,
  handle_all-IsKept,
}
use cqu_netprobe_gateway.Admin.Probes.Counts.{counts-scan}
use cqu_netprobe_gateway.Admin.Probes.Cleared.{IsToggled, handle_probe_toggle-IsToggled}

abbrev alice : Session
alice = record { id = "s1"; username = "alice"; csrf = "c1"; expires = 110 }

abbrev served : Admin counting
served = record {
  probes = one_probe;
  catalog = record { campuses = []; buildings = [] };
  sessions = record { sessions = ("s1", alice) ∷ []; ttl = 100 };
  one_shot = record { slots = []; ttl = 60 };
  latest = record { entries = ("a-b-1", record { results = []; server_received_at = noon }) ∷ [] };
  limiter = record { interval = 50; burst = 1; buckets = ("a-b-1", 1) ∷ []; failures = [] };
}

abbrev visit : String → Visit
visit csrf = record {
  cookie = some "s1";
  fields = some (record { username = ""; password = ""; csrf = csrf });
  now = 50;
  csrf_now = 51;
  handler_now = 52;
}

abbrev toggled : Admin counting × Reply
toggled = handle_probe_toggle (visit "c1") false ran noon "a-b-1" served

unfoldable admin_runs : Unit {0}
unfolding probe_handlers_run probes_run_statements guarded require_session session_from_request
    require_csrf get lookup insert erase remove delete
admin_runs = tt

toggle_redirects : toggled.1 ≡ redirect "/admin"
unfolding admin_runs
toggle_redirects = refl

wrong_csrf :
    (guarded (visit "c2") (handle_probe_delete (visit "c2") ran "a-b-1") served).1
    ≡ plain 403 "invalid CSRF token"
unfolding admin_runs
wrong_csrf = refl

guarded-case_example :
    GuardCase
      (visit "c1")
      (handle_probe_delete (visit "c1") ran "a-b-1")
      served
      (guarded (visit "c1") (handle_probe_delete (visit "c1") ran "a-b-1") served)
guarded-case_example =
    guarded-case (visit "c1") (handle_probe_delete (visit "c1") ran "a-b-1") served

handle_probe_toggle-IsToggled_example : IsToggled "a-b-1" first toggled.0
unfolding admin_runs
handle_probe_toggle-IsToggled_example =
    handle_probe_toggle-IsToggled (visit "c1") ran noon "a-b-1" served toggled.0 first "/admin" refl
      refl

counts-scan_example :
    ((scan_probes served.latest noon (60 * second) start (first ∷ [])).online
      ≡ count_probe_filter served.latest (60 * second) noon "online" (first ∷ []))
    × (count_probe_filter served.latest (60 * second) noon "disabled" (first ∷ [])
          + count_probe_filter served.latest (60 * second) noon "online" (first ∷ [])
          + count_probe_filter served.latest (60 * second) noon "offline" (first ∷ [])
        ≡ 1)
counts-scan_example = counts-scan served.latest (60 * second) noon (first ∷ [])

-- Two types are asked for, one of them twice; the ID is there already.
abbrev mirror_form : String → TargetForm
mirror_form id = record {
  target_id = id;
  display_name = "Mirror";
  address = " https://mirror ";
  description = "";
  enabled = "on";
  probe_types = "icmp" ∷ "dns" ∷ "icmp" ∷ [];
}

abbrev healthy : Transaction
healthy = record {
  begin_fails = false;
  statement = ran;
  clear_fails = false;
  type_fails = λ pt. false;
  commit_fails = false;
}

abbrev saving : Saving
saving = record {
  list_fails = false;
  types_fail = λ id. false;
  creation = healthy;
  creation_now = noon;
  update = healthy;
  update_now = noon;
}

abbrev no_targets : TargetTables
no_targets = record { targets = []; types = []; next_id = 1 }

abbrev one_target : TargetTables
one_target = (handle_target_create (visit "c1") saving (mirror_form " mirror ") served no_targets).1

target_stored : one_target.types ≡ ("mirror", "dns") ∷ ("mirror", "icmp") ∷ []
unfolding target_handlers_run targets_run_statements get lookup insert
target_stored = refl

bad_id_refused :
    (handle_target_create (visit "c1") saving (mirror_form "a-b") served one_target).1 ≡ one_target
unfolding target_handlers_run targets_run_statements get lookup insert
bad_id_refused = refl

abbrev around : Around
around = record {
  campuses_fail = false;
  buildings_fail = false;
  insert_fails = false;
  rename = ran;
  count_fails = false;
  deletion = healthy;
  store_now = noon;
}

-- The second request names no campus that the pattern admits, and the third finds none.
abbrev requests : List (Visit × Around × CampusRequest)
requests =
    (visit "c1", around, create_request " a " "Campus A")
    ∷ (visit "c1", around, create_request "A" "Campus A")
    ∷ (visit "c1", around, rename_request "b" "Campus B")
    ∷ (visit "c1", around, delete_request "a")
    ∷ []

-- The probe of the list stands in no building, so that the catalog starts without probes.
abbrev no_probes : Admin counting
no_probes = record served { probes = record { rows = []; next_id = 1 } }

handle_all-IsKept_example :
    IsKept (handle_all no_probes requests).probes.rows (handle_all no_probes requests).catalog
handle_all-IsKept_example = handle_all-IsKept no_probes requests (record {
  consistent = record { campus_codes = tt; building_codes = tt; housed = tt; located = tt };
  good = tt;
})

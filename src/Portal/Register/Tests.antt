-- ===== src/Portal/Register/Tests.antt =====
-- A campus with one building, and a visitor who registers a probe there.
use cqu_netprobe_gateway.Prelude.{
  ℕ, ◌+◌, ◌*◌, String, false, none, some, Option, [], ◌∷◌, ◌≡◌, ◌==◌, refl, arith, length, All,
  List,
}
use cqu_netprobe_gateway.Prelude.GoMap.{lookup, insert}
use cqu_netprobe_gateway.Prelude.GoMap.Retain.{retain}
use cqu_netprobe_gateway.Prelude.Text.Split.{split_comma, trim_space, trim_brackets}
use cqu_netprobe_gateway.Prelude.Time.{unix_epoch, second}
use cqu_netprobe_gateway.ClientIp.{
  NetLibrary, contains, contains_ip, host_only, host_of, from, rightmost, leftmost, client_entry,
}
use cqu_netprobe_gateway.Token.{hex_encode}
use cqu_netprobe_gateway.Forms.{rune_count, match_code, generate_probe_id}
use cqu_netprobe_gateway.Store.{found}
use cqu_netprobe_gateway.Store.Probes.{scan_probe, probe_by_token_hash, probes_run_statements}
use cqu_netprobe_gateway.Store.Catalog.{Catalog, catalog_run_statements}
use cqu_netprobe_gateway.Store.Catalog.Buildings.{buildings_run_statements}
use cqu_netprobe_gateway.Store.Catalog.Consistent.{IsConsistent}
use cqu_netprobe_gateway.Api.Limiter.Tests.{counting}
use cqu_netprobe_gateway.Portal.OneShot.{put_pair, take_pair, safe_back_path}
use cqu_netprobe_gateway.Portal.Limiter.{new_register_limiter, limiter_runs}
use cqu_netprobe_gateway.Portal.Server.{
  Portal, Settings, Answer, redirect, token_page, origin_allowed, render_form, handle_token_show,
}
use cqu_netprobe_gateway.Portal.Register.{
  Accepted, RegisterCall, Attempt, Surroundings, handle_register, register_runs,
  validate_registration,
}
use cqu_netprobe_gateway.Portal.Register.Registered.{Registered, Shows, handle_register-redirect}
use cqu_netprobe_gateway.Portal.Register.Overlap.{
  Registration, IsUnderWay, IsKept, finish_all, finish_all-keeps,
}

-- Every text parses, and a network is one address.
abbrev any_address : NetLibrary
any_address = record {
  Ip = String;
  Network = String;
  parse_ip = λ s. some s;
  network_contains = λ n ip. n == ip;
  split_host_port = λ s. none;
}

abbrev catalog : Catalog
catalog = record {
  campuses = record { code = "a"; name = "A"; created_at = 0; updated_at = 0 } ∷ [];
  buildings =
      record {
        code = "lib";
        campus_code = "a";
        building_group_code = "g";
        building_group_name = "G";
        name = "Library";
        created_at = 0;
        updated_at = 0;
      }
      ∷ [];
}

abbrev portal : Portal counting
portal = record {
  probes = record { rows = []; next_id = 1 };
  catalog = catalog;
  limiter = some (new_register_limiter counting 60 2);
  one_shot = record { slots = []; ttl = 60 * second };
}

abbrev settings : Settings any_address
settings = record { public_base_url = "https://gw/"; max_probes = 2; trusted_proxies = [] }

abbrev attempt : ℕ → Attempt
attempt i = record {
  suffix = some (1 ∷ 2 ∷ i ∷ []);
  insert_fails = false;
  read_fails = false;
  now = unix_epoch + 50 * second;
}

abbrev around : Surroundings
around = record {
  list_fails = false;
  validate_fails = false;
  building_fails = false;
  campus_fails = false;
  count_fails = false;
  render = record { campuses_fail = false; buildings_fail = false };
  limiter_now = 5;
  limiter_at = 5;
  token = some "cqu_probe_x";
  attempt = attempt;
  slot = some "slot";
  slot_now = unix_epoch;
}

abbrev request : String → RegisterCall
request building = record {
  origin = "";
  fields = some (record {
    campus_code = " a ";
    building_code = building;
    network_type = "wired";
    description = "";
  });
  client = record { remote_addr = "10.0.0.1"; forwarded_for = "" };
}

abbrev no_url : String → Option String
no_url s = none

abbrev same_text : String → String
same_text s = s

abbrev registered : Portal counting × Answer
registered =
    handle_register counting any_address no_url same_text settings portal around (request "lib")

unfoldable all_runs : Unit {0}
unfolding register_runs probes_run_statements catalog_run_statements buildings_run_statements
    trim_space trim_brackets split_comma contains contains_ip host_only host_of from rightmost
    leftmost client_entry hex_encode rune_count match_code generate_probe_id put_pair safe_back_path
    new_register_limiter lookup insert retain origin_allowed render_form validate_registration
    take_pair handle_token_show
all_runs = tt

registered_test : registered.1 ≡ redirect "/token/slot"
unfolding all_runs limiter_runs
registered_test = refl

unknown_building :
    (handle_register counting any_address no_url same_text settings portal around
      (request "x")).0.probes
    ≡ portal.probes
unfolding all_runs
unknown_building = refl

-- The token page shows the ID of the row, and shows it once.
shown_test :
    (handle_token_show "https://gw/" registered.0.one_shot "slot" unix_epoch).1
    ≡ token_page "a-lib-010200" "cqu_probe_x" "https://gw" "/"
unfolding all_runs limiter_runs
shown_test = refl

handle_register-redirect_example :
    (token : String) × (n : Registered same_text 2 portal.probes registered.0.probes catalog token)
    × Shows registered.0.one_shot "/token/slot" n.row token
    × (probe_by_token_hash false registered.0.probes (same_text token) ≡ found (scan_probe n.row))
unfolding all_runs limiter_runs
handle_register-redirect_example =
    handle_register-redirect counting any_address no_url same_text settings portal registered.0
      around (request "lib") "/token/slot" refl

empty-IsConsistent : IsConsistent [] catalog
unfolding all_runs
empty-IsConsistent = record {
  campus_codes = (tt, tt);
  building_codes = (tt, tt);
  housed = (refl, tt);
  located = tt;
}

abbrev one_only : Settings any_address
one_only = record { public_base_url = "https://gw/"; max_probes = 1; trusted_proxies = [] }

abbrev accepted : Accepted
accepted = record {
  form = record {
    campus_code = "a";
    building_code = "lib";
    network_type = "wired";
    description = "";
  };
  building = record {
    code = "lib";
    campus_code = "a";
    building_group_code = "g";
    building_group_name = "G";
    name = "Library";
    created_at = unix_epoch;
    updated_at = unix_epoch;
  };
  campus = record { code = "a"; name = "A"; created_at = unix_epoch; updated_at = unix_epoch };
}

abbrev counted : String → Registration
counted token = record {
  env = record around { token = some token };
  call = request "lib";
  form = accepted;
  count = some 0;
}

-- Both have counted no row, under a cap of one.
abbrev both : List Registration
both = counted "cqu_probe_x" ∷ counted "cqu_probe_y" ∷ []

abbrev after_both : Portal counting
after_both = finish_all counting any_address no_url same_text one_only portal both

two_over_cap : length after_both.probes.rows ≡ 2
unfolding all_runs finish_all
two_over_cap = refl

under_way : All (IsUnderWay counting any_address no_url same_text one_only catalog 0) both
unfolding all_runs
under_way = ((refl, omega arith), ((refl, omega arith), tt))

finish_all-keeps_example : IsKept 2 after_both.probes after_both.catalog
finish_all-keeps_example =
    finish_all-keeps counting any_address no_url same_text one_only portal both under_way
      (record { ids_distinct = tt; tokens_distinct = tt }, empty-IsConsistent, omega arith)

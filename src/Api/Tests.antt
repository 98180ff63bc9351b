-- ===== src/Api/Tests.antt =====
-- One server, one enabled probe, and the theorems of this directory at them.
use cqu_netprobe_gateway.Prelude.{
  ℕ, suc, String, Bool, true, false, none, some, List, [], ◌∷◌, ◌==◌, ◌≡◌, ◌≢◌, refl, arith,
  if◌then◌else◌,
}
use cqu_netprobe_gateway.Prelude.GoMap.{lookup}
use cqu_netprobe_gateway.Prelude.Text.Split.{trim_brackets}
use cqu_netprobe_gateway.ClientIp.{NetLibrary, host_only, host_of, contains, contains_ip, from}
use cqu_netprobe_gateway.ClientIp
use cqu_netprobe_gateway.Protocol.Errors.{Error, config_stale, invalid_target, new_error}
use cqu_netprobe_gateway.Protocol.Types.{Allowlist}
use cqu_netprobe_gateway.Protocol.Config.{default_measurement_config}
use cqu_netprobe_gateway.Protocol.ConfigId.{config_id}
use cqu_netprobe_gateway.Protocol.Decode.{decode_runs}
use cqu_netprobe_gateway.Protocol.Decode.Tests.{tiny, decoded}
use cqu_netprobe_gateway.Protocol.Measurement.{validate_dns}
use cqu_netprobe_gateway.Protocol.Request.{request_runs}
use cqu_netprobe_gateway.Store.{Probe, StoredTarget, found, not_found}
use cqu_netprobe_gateway.Api.Errors.{Response, no_content}
use cqu_netprobe_gateway.Api.Limiter.{AuthFailureEntry, auth_failure_blocked, allow}
use cqu_netprobe_gateway.Api.Limiter.Tests.{counting}
use cqu_netprobe_gateway.Api.Server.{Server, PushCall, body_bytes, Clock, Reads}
use cqu_netprobe_gateway.Api.Authenticate.{authenticate, authenticate_runs}
use cqu_netprobe_gateway.Api.Authenticate.Effects.{Unchanged, authenticate-Unchanged}
use cqu_netprobe_gateway.Api.Push.{Imports, dispatch_entries, handle_push, push_runs}
use cqu_netprobe_gateway.Api.Push.Effects.{Pushed, handle_push-Pushed}
use cqu_netprobe_gateway.Api.Push.Shown.{Shown, handle_push-Shown}
use cqu_netprobe_gateway.Api.Targets.{TargetsResponse, targets_runs}
use cqu_netprobe_gateway.Api.Targets.Agreement.{validate-served}

abbrev any_address : NetLibrary
any_address = record {
  Ip = String;
  Network = String;
  parse_ip = λ s. some s;
  network_contains = λ n ip. n == ip;
  split_host_port = λ s. none;
}

abbrev imports : Imports
imports = record {
  rate = counting;
  net = any_address;
  json = tiny;
  token_hash = λ s. s;
  marshal = λ c. none;
  sha1 = λ bytes. bytes;
}

abbrev dorm : Probe
dorm = record {
  id = 1;
  probe_id = "dorm-1";
  token_hash = "secret";
  campus_code = "a";
  campus_name = "A";
  building_group_code = "g";
  building_group_name = "G";
  building_code = "b";
  building_name = "B";
  network_type = "wired";
  enabled = true;
  description = "";
  rotated_at = 0;
  created_via = "admin";
  created_at = 1;
  updated_at = 1;
}

abbrev spent_failures : AuthFailureEntry counting
spent_failures = record { limiter = 0; last_used = 1 }

abbrev server : Server counting any_address
server = record {
  latest = record { entries = [] };
  limiter = some (record {
    interval = 5;
    burst = 3;
    buckets = [];
    failures = ("10.9.9.9", spent_failures) ∷ [];
  });
  self = some [];
  trusted_proxies = [];
}

abbrev allowed : Allowlist
allowed = ("portal", ("dns", true) ∷ []) ∷ []

abbrev portal : List StoredTarget
portal = record { target_id = "portal"; address = "10.0.0.53"; probe_types = "dns" ∷ [] } ∷ []

abbrev reads : Reads
reads = record {
  probe_by_token_hash = λ h. if h == "secret" then found dorm else not_found;
  allowlist = some allowed;
  measurement_config = some (default_measurement_config, false);
  dispatch_targets = some portal;
}

abbrev clock : Clock
clock = record {
  peek_now = 20;
  peek_at = 20;
  failure_now = 21;
  failure_at = 21;
  allow_at = 22;
  received_at = 23;
}

abbrev push_from : String → PushCall
push_from ip = record {
  authorization = "Bearer secret";
  client = record { remote_addr = ip; forwarded_for = "" };
  body = body_bytes (0 ∷ []);
}

authenticate-Unchanged_example :
    Unchanged counting any_address
      (λ s. s)
      server
      (authenticate counting any_address (λ s. s) server reads clock (push_from "10.0.0.7")).0
authenticate-Unchanged_example =
    authenticate-Unchanged counting any_address (λ s. s) server reads clock (push_from "10.0.0.7")

handle_push-Pushed_example :
    Pushed imports server reads clock
      (push_from "10.0.0.7")
      (handle_push imports server reads clock (push_from "10.0.0.7"))
handle_push-Pushed_example = handle_push-Pushed imports server reads clock (push_from "10.0.0.7")

handle_push-Shown_example :
    Shown imports server reads clock
      (push_from "10.0.0.7")
      30
      50
      (handle_push imports server reads clock (push_from "10.0.0.7"))
handle_push-Shown_example =
    handle_push-Shown imports server reads clock (push_from "10.0.0.7") 30 50 (omega arith)

-- The push of the example is answered 204.
push_accepted : (handle_push imports server reads clock (push_from "10.0.0.7")).1 ≡ no_content
unfolding authenticate_runs push_runs auth_failure_blocked allow lookup from host_only host_of
    trim_brackets contains contains_ip decode_runs request_runs validate_dns config_id
push_accepted = refl

abbrev handed : TargetsResponse
handed = record {
  version = 1;
  config = default_measurement_config;
  config_id = "";
  targets = dispatch_entries portal;
}

abbrev unknown_target : Error
unknown_target = new_error invalid_target "unknown target"

validate-served_example : unknown_target.code ≢ config_stale
unfolding authenticate_runs targets_runs auth_failure_blocked lookup from host_only host_of
    trim_brackets contains contains_ip request_runs config_id
validate-served_example =
    validate-served imports server reads clock (push_from "10.0.0.7") handed []
      (default_measurement_config, false) portal decoded unknown_target refl refl refl refl refl

abbrev own_address : String → Bool
own_address s = s == "127.0.0.1"

abbrev scraper : String → ClientIp.Request
scraper header = record { remote_addr = "10.0.0.1"; forwarded_for = header }

-- A handler of the metrics, with the number of its runs as the state.
abbrev serve : ℕ → ℕ × Response
serve n = (suc n, no_content)

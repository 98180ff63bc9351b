-- ===== src/Config/Tests.antt =====
-- A small environment, and parsers that know its texts.
use cqu_netprobe_gateway.Prelude.{
  ◌*◌, String, Option, none, some, [], ◌∷◌, ◌≡◌, ◌↔◌, refl, ◌==◌, if◌then◌else◌,
}
use cqu_netprobe_gateway.Prelude.Int.{ℤ, pos, negsuc}
use cqu_netprobe_gateway.Prelude.Text.Split.{split_comma, trim_space}
use cqu_netprobe_gateway.Prelude.Time.{second, minute}
use cqu_netprobe_gateway.Config.{
  ConfigLibrary, Config, refused, loaded, below_one, catch_all, invalid_cidr, level_info,
  Environment, load, env_or, duration_env, positive_env, count_env, parse_parts, parse_cidrs,
  is_catch_all, refuse_catch_all, parse_level,
}
use cqu_netprobe_gateway.Config.Loading.{said, Values, IsWritten, config_of, load_iff}

abbrev parse_number : String → Option ℤ
parse_number s =
    if s == "3"
    then some (pos 3)
    else if s == "500"
    then some (pos 500)
    else if s == "-1"
    then some (negsuc 0)
    else none

-- A network is its own text, and one of them is a catch-all.
abbrev texts : ConfigLibrary
texts = record {
  Network = String;
  parse_duration = λ s. if s == "10s" then some (pos (10 * second)) else none;
  atoi = parse_number;
  parse_cidr = λ s. if s == "junk" then none else some s;
  mask_size = λ n. if n == "0.0.0.0/0" then (0, 32) else (8, 32);
  to_lower = λ s. s;
}

abbrev with_variable : String → String → Environment
with_variable key value k = if k == key then value else if k == "RATE_LIMIT" then " 10s " else ""

abbrev behind_proxy : Environment
behind_proxy = with_variable "TRUSTED_PROXY_CIDRS" "10.0.0.0/8, ,"

unfoldable load_runs : Unit {0}
unfolding load env_or duration_env positive_env count_env parse_parts parse_cidrs is_catch_all
    refuse_catch_all parse_level split_comma trim_space
load_runs = tt

abbrev expected : Config String
expected = record {
  listen_addr = "0.0.0.0:8080";
  metrics_addr = "127.0.0.1:9090";
  data_dir = "/data";
  public_base_url = "";
  admin_username = "admin";
  admin_password = "";
  online_threshold = pos (30 * second);
  rate_limit = pos (10 * second);
  rate_limit_burst = pos 3;
  register_limit = pos (60 * minute);
  register_limit_burst = pos 3;
  max_probes = pos 500;
  metrics_allowed = [];
  trusted_proxies = "10.0.0.0/8" ∷ [];
  log_level = level_info;
}

load_test : load texts behind_proxy ≡ loaded expected
unfolding load_runs
load_test = refl

catch_all_refused :
    load texts (with_variable "TRUSTED_PROXY_CIDRS" "10.0.0.0/8,0.0.0.0/0")
    ≡ refused (catch_all "0.0.0.0/0")
unfolding load_runs
catch_all_refused = refl

cap_refused :
    load texts (with_variable "MAX_PROBES" "-1") ≡ refused (below_one "MAX_PROBES" (negsuc 0))
unfolding load_runs
cap_refused = refl

-- The error names the entry, and not the variable that it stands in.
bad_proxy_refused :
    load texts (with_variable "TRUSTED_PROXY_CIDRS" "junk") ≡ refused (invalid_cidr "junk")
unfolding load_runs
bad_proxy_refused = refl

load_iff_example : (load texts behind_proxy ≡ loaded expected) ↔ (
    (v : Values texts) × IsWritten texts behind_proxy (said texts behind_proxy) v
    × (expected ≡ config_of texts (said texts behind_proxy) v))
load_iff_example = load_iff texts behind_proxy expected

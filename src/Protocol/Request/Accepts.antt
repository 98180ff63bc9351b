-- ===== src/Protocol/Request/Accepts.antt =====
-- Which requests are accepted, stated without sorting, counting or an order of tests.
pub mod Types
pub mod Targets
pub mod Whole
use Prim.Native.String.{len}
use cqu_netprobe_gateway.Prelude.{
  ℕ, suc, ◌+◌, ◌≤◌, ◌<◌, String, Bool, true, Option, none, some, List, [], ◌∷◌, ◌≡◌, ◌≢◌, ◌↔◌, ◌⊎◌,
  inl, inr, refl, ap, ◌∙◌, eq_iff, arith, All, All-imp, length, Option-cases,
}
use cqu_netprobe_gateway.Prelude.Int.{pos, ◌≤ℤ◌}
use cqu_netprobe_gateway.Prelude.GoMap.{GoMap, lookup, keys, IsMap, All-keys_iff}
use cqu_netprobe_gateway.Prelude.Sort.{All-sort_by_iff, length-sort_by}
use cqu_netprobe_gateway.Protocol.Errors.{Error, Result, ok, err, ◌>>=◌, ◌>>◌, error_of, >>=-eq-ok}
use cqu_netprobe_gateway.Protocol.Types.{
  ProbeType, probe_icmp, probe_dns, probe_http, version, Allowlist, Measurement, Results,
  PushRequest,
}
use cqu_netprobe_gateway.Protocol.Measurement.{validate_measurement}
use cqu_netprobe_gateway.Protocol.Request.{
  max_probe_version_len, max_config_id_len, sort_strings, or_false, or_empty, is_probe_type,
  check_type, check_types, check_target_types, check_target, check_targets, at_least_one,
  check_results, check_header, validate_request,
}

abbrev pub IsProbeType : ProbeType → Type 0
IsProbeType pt = (pt ≡ probe_icmp) ⊎ (pt ≡ probe_dns) ⊎ (pt ≡ probe_http)

-- One measurement: its type is one of the three, the target permits it, and its own rules hold.
abbrev pub IsAcceptedType : GoMap Bool → String × Measurement → Type 0
IsAcceptedType allowed e =
    IsProbeType e.0 × (lookup e.0 allowed ≡ some true) × (validate_measurement e.0 e.1 ≡ none)

-- One target: the allowlist has it, and it has measurements, each accepted.
pub record IsAcceptedTarget (al : Allowlist) (e : String × GoMap Measurement) : Type 0 where
  pub allowed : GoMap Bool
  pub known : lookup e.0 al ≡ some allowed
  pub some_type : e.1 ≢ []
  pub types : All (IsAcceptedType allowed) e.1

pub record IsAccepted (al : Allowlist) (current : String) (r : PushRequest) : Type 0 where
  pub version_ok : r.version ≡ version
  pub config_id_len : len r.config_id ≤ max_config_id_len
  pub config_id_ok : (r.config_id ≡ "") ⊎ (r.config_id ≡ current)
  pub timestamp_ok : pos 0 ≤ℤ r.timestamp
  pub probe_version_len : len r.probe_version ≤ max_probe_version_len
  pub some_target : r.results ≢ []
  pub targets : All (IsAcceptedTarget al) r.results

-- What a decoded request always is: its maps have one entry for a key.
abbrev pub AreMaps : Results → Type 0
AreMaps m = IsMap m × All (λ e. IsMap e.1) m

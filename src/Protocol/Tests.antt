-- ===== src/Protocol/Tests.antt =====
-- One request that a probe sends, the configuration it follows, and the theorems of this directory
-- at them.
use mathlib.Core.List.{Permᴰ}
use cqu_netprobe_gateway.Prelude.{
  ℕ, ◌%◌, true, Option, none, some, List, [], ◌∷◌, ◌≡◌, ◌↔◌, refl, arith, length,
}
use cqu_netprobe_gateway.Prelude.Text.{text_ne}
use cqu_netprobe_gateway.Prelude.Int.{pos}
use cqu_netprobe_gateway.Float64.{Float64, of_int, of_ratio, less, less_eq, abs, ◌-f◌}
use cqu_netprobe_gateway.Protocol.Types.{
  Allowlist, IcmpResult, DnsResult, HttpResult, Measurement, Results, PushRequest,
}
use cqu_netprobe_gateway.Protocol.Measurement.{
  validate_icmp, validate_http, finite, one_f, loss_ratio_tolerance, expected_loss,
  total_loss_tolerance,
}
use cqu_netprobe_gateway.Protocol.Measurement.Icmp.{IsValidIcmp, validate_icmp_iff}
use cqu_netprobe_gateway.Protocol.Measurement.Http.{IsValidHttp, validate_http_iff}
use cqu_netprobe_gateway.Protocol.Config.{MeasurementConfig, default_measurement_config, validate}
use cqu_netprobe_gateway.Protocol.Config.Laws.{
  IsDispatchable, validate_iff, IsWrapping, validate_overflow,
}
use cqu_netprobe_gateway.Protocol.Request.{validate_request}
use cqu_netprobe_gateway.Protocol.Request.Accepts.{IsAccepted}
use cqu_netprobe_gateway.Protocol.Request.Accepts.Whole.{validate_request_iff}
use cqu_netprobe_gateway.Protocol.Request.Stable.{validate_request-Reordered}
use cqu_netprobe_gateway.Protocol.ConfigId.{DispatchTarget, ConfigIdentity, config_id}
use cqu_netprobe_gateway.Protocol.ConfigId.Order.{config_id-SameSet}
use cqu_netprobe_gateway.Protocol.ConfigId.Uuid.{AreBytes}

abbrev ms : ℕ → Float64
ms n = of_int (pos n)

abbrev four_of_five : IcmpResult
four_of_five = record {
  success = true;
  sent = pos 5;
  received = pos 4;
  loss_ratio = of_ratio 2 10;
  min_rtt_ms = some (ms 10);
  avg_rtt_ms = some (ms 12);
  max_rtt_ms = some (ms 15);
  jitter_ms = none;
}

-- One reply cannot have a jitter, and is let through with one.
abbrev one_reply : IcmpResult
one_reply = record four_of_five {
  sent = pos 1;
  received = pos 1;
  loss_ratio = ms 0;
  jitter_ms = some (ms 3);
}

one_reply_test : validate_icmp one_reply ≡ none
unfolding validate_icmp finite of_int less one_f loss_ratio_tolerance abs ◌-f◌ expected_loss less_eq
    total_loss_tolerance
one_reply_test = refl

abbrev resolved : DnsResult
resolved = record { success = true; duration_ms = some (ms 8) }

abbrev found : HttpResult
found = record { success = true; status_code = some (pos 302); duration_ms = some (ms 40) }

validate_icmp_iff_example : (validate_icmp four_of_five ≡ none) ↔ IsValidIcmp four_of_five
validate_icmp_iff_example = validate_icmp_iff four_of_five

validate_http_iff_example : (validate_http found ≡ none) ↔ IsValidHttp found
validate_http_iff_example = validate_http_iff found

validate_iff_example :
    (validate default_measurement_config ≡ none) ↔ IsDispatchable default_measurement_config
unfolding default_measurement_config
validate_iff_example = validate_iff default_measurement_config (omega arith)

-- Two echo requests 2^32 of 2^32 ms apart: the product is 2^64.
abbrev endless : MeasurementConfig
endless = record {
  interval_ms = pos 10000;
  icmp = record { count = pos 4294967297; interval_ms = pos 4294967296; timeout_ms = pos 1000 };
  http = record {
    method = "GET";
    follow_redirects = true;
    verify_tls = true;
    timeout_ms = pos 5000;
  };
  dns = record { transport = "udp"; timeout_ms = pos 3000 };
}

endless-IsWrapping : IsWrapping endless
endless-IsWrapping = record {
  gaps = 4294967296;
  step = 4294967295;
  wait = 999;
  count_eq = refl;
  interval_eq = refl;
  timeout_eq = refl;
  gaps_pos = omega arith;
  gaps_in_range = omega arith;
  wraps = refl;
  cycle = omega arith;
  cycle_in_range = omega arith;
  wait_fits = omega arith;
  method_get = refl;
  transport_udp = refl;
  http_pos = omega arith;
  http_fits = omega arith;
  dns_pos = omega arith;
  dns_fits = omega arith;
}

validate_overflow_example : (validate endless ≡ none) × (¬ IsDispatchable endless)
validate_overflow_example = validate_overflow endless endless-IsWrapping

abbrev dns_only : Measurement
dns_only = record { icmp = none; dns = some resolved; http = none }

abbrev http_only : Measurement
http_only = record { icmp = none; dns = none; http = some found }

abbrev allowed : Allowlist
allowed = ("portal", ("dns", true) ∷ ("http", true) ∷ []) ∷ []

abbrev results : Results
results = ("portal", ("dns", dns_only) ∷ ("http", http_only) ∷ []) ∷ []

abbrev results_again : Results
results_again = ("portal", ("http", http_only) ∷ ("dns", dns_only) ∷ []) ∷ []

abbrev request : PushRequest
request = record {
  version = pos 1;
  timestamp = pos 1700000000;
  probe_version = "1.0.0";
  config_id = "";
  results = results;
}

validate_request_iff_example :
    (validate_request allowed "c" request ≡ none) ↔ IsAccepted allowed "c" request
validate_request_iff_example =
    validate_request_iff allowed "c" request
      (((tt, tt), (((text_ne "dns" "http" refl, tt), (tt, tt)), tt)))

validate_request-Reordered_example :
    validate_request allowed "c" request
    ≡ validate_request allowed "c" (record request { results = results_again })
validate_request-Reordered_example =
    validate_request-Reordered allowed "c" request results_again
      (((tt, tt), (((text_ne "dns" "http" refl, tt), (tt, tt)), tt)))
      (record {
        mid = results;
        targets_perm = Permᴰ.cons refl Permᴰ.nil;
        types_perm = (refl, Permᴰ.swap refl refl, tt);
      })

abbrev two_targets : List DispatchTarget
two_targets =
    record { target_id = "a"; address = "10.0.0.1"; probe_types = "icmp" ∷ "dns" ∷ [] }
    ∷ record { target_id = "b"; address = "10.0.0.2"; probe_types = "http" ∷ [] }
    ∷ []

abbrev two_again : List DispatchTarget
two_again =
    record { target_id = "b"; address = "10.0.0.2"; probe_types = "http" ∷ [] }
    ∷ record { target_id = "a"; address = "10.0.0.1"; probe_types = "dns" ∷ "icmp" ∷ [] }
    ∷ []

abbrev swapped : List DispatchTarget
swapped =
    record { target_id = "b"; address = "10.0.0.2"; probe_types = "http" ∷ [] }
    ∷ record { target_id = "a"; address = "10.0.0.1"; probe_types = "icmp" ∷ "dns" ∷ [] }
    ∷ []

-- An encoder and a hash of no strength.
abbrev count_targets : ConfigIdentity → Option (List ℕ)
count_targets c = some (length c.targets ∷ [])

abbrev low_bytes : List ℕ → List ℕ
low_bytes [] = []
low_bytes (b ∷ bs) = (b % 256) ∷ low_bytes bs

low_bytes-AreBytes : (bs : List ℕ) → AreBytes (low_bytes bs)
low_bytes-AreBytes [] = tt
low_bytes-AreBytes (b ∷ bs) = (omega arith, low_bytes-AreBytes bs)

config_id-SameSet_example :
    config_id count_targets low_bytes endless two_targets
    ≡ config_id count_targets low_bytes endless two_again
config_id-SameSet_example =
    config_id-SameSet count_targets low_bytes endless two_targets two_again
      ((text_ne "a" "b" refl, tt), (tt, tt))
      (record {
        mid = swapped;
        targets_perm = Permᴰ.swap refl refl;
        entries = (
          record { id_eq = refl; address_eq = refl; types_perm = Permᴰ.cons refl Permᴰ.nil },
          (record { id_eq = refl; address_eq = refl; types_perm = Permᴰ.swap refl refl }, tt),
        );
      })

abbrev sixteen_bytes : List ℕ
sixteen_bytes = 0 ∷ 1 ∷ 2 ∷ 3 ∷ 4 ∷ 5 ∷ 6 ∷ 7 ∷ 8 ∷ 9 ∷ 10 ∷ 11 ∷ 12 ∷ 13 ∷ 14 ∷ 255 ∷ []

sixteen_bytes-AreBytes : AreBytes sixteen_bytes
sixteen_bytes-AreBytes = ground arith

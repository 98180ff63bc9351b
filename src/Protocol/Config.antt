-- ===== src/Protocol/Config.antt =====
-- internal/protocol/dispatch.go: the measurement parameters, their validation and the defaults.
pub mod Laws
use cqu_netprobe_gateway.Prelude.{
  String, Bool, true, not, ◌&&◌, Option, none, some, ◌==◌, ◌≡◌, refl, if◌then◌else◌,
}
use cqu_netprobe_gateway.Prelude.Int.{ℤ, pos, ltb_ℤ, leb_ℤ, ◌+i◌, ◌-i◌, ◌*i◌}

pub record IcmpConfig : Type 0 where
  pub count : ℤ
  pub interval_ms : ℤ
  pub timeout_ms : ℤ

pub record HttpConfig : Type 0 where
  pub method : String
  pub follow_redirects : Bool
  pub verify_tls : Bool
  pub timeout_ms : ℤ

pub record DnsConfig : Type 0 where
  pub transport : String
  pub timeout_ms : ℤ

pub record MeasurementConfig : Type 0 where
  pub interval_ms : ℤ
  pub icmp : IcmpConfig
  pub http : HttpConfig
  pub dns : DnsConfig

abbrev pub min_interval_ms : ℤ
min_interval_ms = pos 1000

abbrev pub http_method : String
http_method = "GET"

abbrev pub dns_transport : String
dns_transport = "udp"

-- The messages that `Validate` returns, one constructor each, with the numbers left out.
pub data ConfigError : Type 0 where
  interval_too_short icmp_count icmp_interval icmp_timeout icmp_round : ConfigError
  method_fixed transport_fixed : ConfigError
  http_timeout http_timeout_long dns_timeout dns_timeout_long : ConfigError

unfoldable pub icmp_round_ms : MeasurementConfig → ℤ
icmp_round_ms c =
    if leb_ℤ c.icmp.count (pos 0)
    then pos 0
    else (c.icmp.count -i pos 1) *i c.icmp.interval_ms +i c.icmp.timeout_ms

-- The last switch of `Validate`.
timeout_error : MeasurementConfig → Option ConfigError
timeout_error c =
    if leb_ℤ c.http.timeout_ms (pos 0)
    then some http_timeout
    else if leb_ℤ c.interval_ms c.http.timeout_ms
    then some http_timeout_long
    else if leb_ℤ c.dns.timeout_ms (pos 0)
    then some dns_timeout
    else if leb_ℤ c.interval_ms c.dns.timeout_ms
    then some dns_timeout_long
    else none

unfoldable pub validate : MeasurementConfig → Option ConfigError
unfolding timeout_error icmp_round_ms
validate c =
    if ltb_ℤ c.interval_ms min_interval_ms
    then some interval_too_short
    else if leb_ℤ c.icmp.count (pos 0)
    then some icmp_count
    else if leb_ℤ c.icmp.interval_ms (pos 0)
    then some icmp_interval
    else if leb_ℤ c.icmp.timeout_ms (pos 0)
    then some icmp_timeout
    else if leb_ℤ c.interval_ms (icmp_round_ms c)
    then some icmp_round
    else if not (c.http.method == http_method)
    then some method_fixed
    else if not (c.dns.transport == dns_transport)
    then some transport_fixed
    else timeout_error c

unfoldable pub default_measurement_config : MeasurementConfig
default_measurement_config = record {
  interval_ms = pos 10000;
  icmp = record { count = pos 5; interval_ms = pos 200; timeout_ms = pos 1000 };
  http = record {
    method = http_method;
    follow_redirects = true;
    verify_tls = true;
    timeout_ms = pos 5000;
  };
  dns = record { transport = dns_transport; timeout_ms = pos 3000 };
}

-- The defaults pass their own gate.
pub validate-default : validate default_measurement_config ≡ none
unfolding validate default_measurement_config ◌+i◌ ◌-i◌ ◌*i◌
validate-default = refl

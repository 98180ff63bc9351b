-- ===== src/Protocol/Types.antt =====
-- internal/protocol/types.go: the decoded request. A Go map is a `GoMap`.
use cqu_netprobe_gateway.Prelude.{String, Bool, Option}
use cqu_netprobe_gateway.Prelude.GoMap.{GoMap}
use cqu_netprobe_gateway.Prelude.Int.{ℤ, pos}
use cqu_netprobe_gateway.Float64.{Float64}

abbrev pub ProbeType : Type 0
ProbeType = String

abbrev pub probe_icmp : ProbeType
probe_icmp = "icmp"

abbrev pub probe_dns : ProbeType
probe_dns = "dns"

abbrev pub probe_http : ProbeType
probe_http = "http"

abbrev pub version : ℤ
version = pos 1

abbrev pub Allowlist : Type 0
Allowlist = GoMap (GoMap Bool)

pub record IcmpResult : Type 0 where
  pub success : Bool
  pub sent : ℤ
  pub received : ℤ
  pub loss_ratio : Float64
  pub min_rtt_ms : Option Float64
  pub avg_rtt_ms : Option Float64
  pub max_rtt_ms : Option Float64
  pub jitter_ms : Option Float64

pub record DnsResult : Type 0 where
  pub success : Bool
  pub duration_ms : Option Float64

pub record HttpResult : Type 0 where
  pub success : Bool
  pub status_code : Option ℤ
  pub duration_ms : Option Float64

pub record Measurement : Type 0 where
  pub icmp : Option IcmpResult
  pub dns : Option DnsResult
  pub http : Option HttpResult

abbrev pub Results : Type 0
Results = GoMap (GoMap Measurement)

pub record PushRequest : Type 0 where
  pub version : ℤ
  pub timestamp : ℤ
  pub probe_version : String
  pub config_id : String
  pub results : Results

-- ===== src/Api/Server.antt =====
-- internal/api/push.go: the server's state, what it reads of a request, and the events it counts.
use cqu_netprobe_gateway.Prelude.{ℕ, String, Bool, Option, none, some, List, ◌∷◌}
use cqu_netprobe_gateway.Prelude.Time.{Time}
use cqu_netprobe_gateway.RateLimit.{RateLimiter}
use cqu_netprobe_gateway.ClientIp.{NetLibrary}
use cqu_netprobe_gateway.ClientIp
use cqu_netprobe_gateway.Latest
use cqu_netprobe_gateway.Api.Limiter.{Limiter}
use cqu_netprobe_gateway.Protocol.Errors.{Code}
use cqu_netprobe_gateway.Protocol.Types.{Allowlist}
use cqu_netprobe_gateway.Protocol.Config.{MeasurementConfig}
use cqu_netprobe_gateway.Store.{Probe, StoredTarget, Lookup}

-- One increment of a counter of `metrics.Self`.
pub data Event : Type 0 where
  auth_failed_event : String → Event
  rejected_event : Code → Event
  push_event : Event

-- The state that requests change. `limiter` and `self` may be nil.
pub record Server (R : RateLimiter) (L : NetLibrary) : Type 0 where
  pub latest : Latest.Store
  pub limiter : Option (Limiter R)
  pub self : Option (List Event)
  pub trusted_proxies : List L.Network

-- What `io.ReadAll` gives on the limited body.
pub data Body : Type 0 where
  body_bytes : List ℕ → Body
  body_too_large body_failed : Body

pub record PushCall : Type 0 where
  pub authorization : String
  pub client : ClientIp.Request
  pub body : Body

-- The readings of the clock during one request.
pub record Clock : Type 0 where
  pub peek_now : Time
  pub peek_at : Time
  pub failure_now : Time
  pub failure_at : Time
  pub allow_at : Time
  pub received_at : Time

-- What the database answers during one request; a failed read is `none`.
pub record Reads : Type 0 where
  pub probe_by_token_hash : String → Lookup Probe
  pub allowlist : Option Allowlist
  pub measurement_config : Option (MeasurementConfig × Bool)
  pub dispatch_targets : Option (List StoredTarget)

abbrev pub count_in : Event → Option (List Event) → Option (List Event)
count_in e none = none
count_in e (some events) = some (e ∷ events)

module _ {R : RateLimiter} {L : NetLibrary} where
  abbrev pub count : Server R L → Event → Server R L
  count s e = record s { self = count_in e s.self }

  -- `authFailed` and `reject`, without the log line.
  abbrev pub auth_failed : Server R L → String → Server R L
  auth_failed s reason = count s (auth_failed_event reason)

  abbrev pub reject : Server R L → Code → Server R L
  reject s code = count s (rejected_event code)

-- ===== src/Api/Targets.antt =====
-- internal/api/targets.go: `handleTargets`.
pub mod Agreement
use cqu_netprobe_gateway.Prelude.{ℕ, String, Bool, true, false, Option, none, some, List}
use cqu_netprobe_gateway.Protocol.Errors.{probe_disabled, internal_error, service_unavailable}
use cqu_netprobe_gateway.Protocol.Config.{MeasurementConfig}
use cqu_netprobe_gateway.Protocol.ConfigId.{DispatchTarget, config_id}
use cqu_netprobe_gateway.Store.{Probe, StoredTarget}
use cqu_netprobe_gateway.Api.Errors.{Response, write_error, msg_disabled, msg_unavailable}
use cqu_netprobe_gateway.Api.Server.{Server, PushCall, Clock, Reads, reject}
use cqu_netprobe_gateway.Api.Authenticate.{Authenticated, denied, granted, authenticate}
use cqu_netprobe_gateway.Api.Push.{Imports, ServerOf, dispatch_entries}

abbrev pub targets_version : ℕ
targets_version = 1

pub record TargetsResponse : Type 0 where
  pub version : ℕ
  pub config : MeasurementConfig
  pub config_id : String
  pub targets : List DispatchTarget

pub data TargetsAnswer : Type 0 where
  served : TargetsResponse → TargetsAnswer
  refused : Response → TargetsAnswer

module _ (I : Imports) where
  abbrev targets_unavailable : ServerOf I → ServerOf I × TargetsAnswer
  targets_unavailable s =
      (reject s internal_error, refused (write_error 503 service_unavailable msg_unavailable))

  -- On what the two reads gave, in the code's order.
  pub serve :
      ServerOf I
      → Option (List StoredTarget)
      → Option (MeasurementConfig × Bool)
      → ServerOf I × TargetsAnswer
  serve s none config = targets_unavailable s
  serve s (some targets) none = targets_unavailable s
  serve s (some targets) (some config) =
      let entries = dispatch_entries targets in
      (
        s,
        served (record {
          version = targets_version;
          config = config.0;
          config_id = config_id I.marshal I.sha1 config.0 entries;
          targets = entries;
        }),
      )

  pub serve_flag : ServerOf I → Reads → Bool → ServerOf I × TargetsAnswer
  serve_flag s reads false =
      (reject s probe_disabled, refused (write_error 403 probe_disabled msg_disabled))
  serve_flag s reads true = serve s reads.dispatch_targets reads.measurement_config

  pub targets_after : ServerOf I → Reads → Authenticated → ServerOf I × TargetsAnswer
  targets_after s reads (denied response) = (s, refused response)
  targets_after s reads (granted probe) = serve_flag s reads probe.enabled

  unfoldable pub handle_targets : ServerOf I → Reads → Clock → PushCall → ServerOf I × TargetsAnswer
  handle_targets s reads clock r =
      let (s', auth) = authenticate I.rate I.net I.token_hash s reads clock r in
      targets_after s' reads auth

  -- All that a run of `handle_targets` computes with, past authentication.
  unfoldable pub targets_runs : Unit {0}
  unfolding serve serve_flag targets_after handle_targets
  targets_runs = tt

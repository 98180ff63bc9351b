-- ===== src/Api/Push.antt =====
-- internal/api/push.go: `handlePush`.
pub mod Effects
pub mod Shown
use cqu_netprobe_gateway.Prelude.{
  ℕ, String, Bool, true, false, not, Option, none, some, List, map, if◌then◌else◌,
}
use cqu_netprobe_gateway.RateLimit.{RateLimiter}
use cqu_netprobe_gateway.ClientIp.{NetLibrary}
use cqu_netprobe_gateway.Latest.{put}
use cqu_netprobe_gateway.Protocol.Errors.{
  Error, Result, ok, err, invalid_request, probe_disabled, rate_limited, internal_error,
  service_unavailable,
}
use cqu_netprobe_gateway.Protocol.Types.{PushRequest, Allowlist}
use cqu_netprobe_gateway.Protocol.Config.{MeasurementConfig}
use cqu_netprobe_gateway.Protocol.ConfigId.{DispatchTarget, ConfigIdentity, config_id}
use cqu_netprobe_gateway.Protocol.Decode.{JsonLibrary, decode}
use cqu_netprobe_gateway.Protocol.Request.{validate_request}
use cqu_netprobe_gateway.Store.{Probe, StoredTarget}
use cqu_netprobe_gateway.Api.Errors.{
  Response, no_content, write_error, write_protocol_error, msg_disabled, msg_rate_limited,
  msg_too_large, msg_bad_request, msg_unavailable,
}
use cqu_netprobe_gateway.Api.Limiter.{Limiter, allow}
use cqu_netprobe_gateway.Api.Server.{
  Server, PushCall, Body, body_bytes, body_too_large, body_failed, Clock, Reads, count, reject,
  push_event,
}
use cqu_netprobe_gateway.Api.Authenticate.{Authenticated, denied, granted, authenticate}

abbrev pub dispatch_entry : StoredTarget → DispatchTarget
dispatch_entry t = record {
  target_id = t.target_id;
  address = t.address;
  probe_types = t.probe_types;
}

abbrev pub dispatch_entries : List StoredTarget → List DispatchTarget
dispatch_entries = map dispatch_entry

-- What is imported: the token bucket, package net, encoding/json, SHA-256 for tokens, and for the
-- configuration ID the encoder and SHA-1.
pub record Imports : Type 1 where
  pub rate : RateLimiter
  pub net : NetLibrary
  pub json : JsonLibrary
  pub token_hash : String → String
  pub marshal : ConfigIdentity → Option (List ℕ)
  pub sha1 : List ℕ → List ℕ

module _ (I : Imports) where
  abbrev pub ServerOf : Type 0
  ServerOf = Server I.rate I.net

  -- A read that failed.
  abbrev pub unavailable : ServerOf → ServerOf × Response
  unavailable s = (reject s internal_error, write_error 503 service_unavailable msg_unavailable)

  abbrev pub protocol_failure : ServerOf → Error → ServerOf × Response
  protocol_failure s e = (reject s e.code, write_protocol_error e)

  -- Step 7.
  pub accept : ServerOf → Clock → Probe → PushRequest → ServerOf × Response
  accept s clock probe req = (
    count (record s { latest = put s.latest probe.probe_id req.results clock.received_at })
        push_event,
    no_content,
  )

  pub judge : ServerOf → Clock → Probe → PushRequest → Option Error → ServerOf × Response
  judge s clock probe req none = accept s clock probe req
  judge s clock probe req (some e) = protocol_failure s e

  -- Step 6 on what the three reads gave, in the code's order.
  pub check_reads :
      ServerOf
      → Clock
      → Probe
      → PushRequest
      → Option Allowlist
      → Option (MeasurementConfig × Bool)
      → Option (List StoredTarget)
      → ServerOf × Response
  check_reads s clock probe req none config targets = unavailable s
  check_reads s clock probe req (some allowlist) none targets = unavailable s
  check_reads s clock probe req (some allowlist) (some config) none = unavailable s
  check_reads s clock probe req (some allowlist) (some config) (some targets) =
      judge s clock probe req (
        validate_request allowlist (config_id I.marshal I.sha1 config.0 (dispatch_entries targets))
          req)

  pub check_request : ServerOf → Reads → Clock → Probe → PushRequest → ServerOf × Response
  check_request s reads clock probe req =
      check_reads s clock probe req reads.allowlist reads.measurement_config reads.dispatch_targets

  pub check_decoded : ServerOf → Reads → Clock → Probe → Result PushRequest → ServerOf × Response
  check_decoded s reads clock probe (err e) = protocol_failure s e
  check_decoded s reads clock probe (ok req) = check_request s reads clock probe req

  -- Steps 4 and 5.
  pub read_body : ServerOf → Reads → Clock → Probe → Body → ServerOf × Response
  read_body s reads clock probe (body_bytes body) =
      check_decoded s reads clock probe (decode I.json body)
  read_body s reads clock probe body_too_large =
      (reject s invalid_request, write_error 413 invalid_request msg_too_large)
  read_body s reads clock probe body_failed =
      (reject s invalid_request, write_error 400 invalid_request msg_bad_request)

  -- `s.limiter == nil || s.limiter.Allow(probe.ProbeID)`.
  pub allow_of : ServerOf → Option (Limiter I.rate) → String → Clock → ServerOf × Bool
  allow_of s none probe_id clock = (s, true)
  allow_of s (some l) probe_id clock =
      let (l', allowed) = allow I.rate l probe_id clock.allow_at in
      (record s { limiter = some l' }, allowed)

  -- Step 3, on the limiter's answer.
  pub within_rate : ServerOf → Reads → Clock → Body → Probe → Bool → ServerOf × Response
  within_rate s reads clock body probe false =
      (reject s rate_limited, write_error 429 rate_limited msg_rate_limited)
  within_rate s reads clock body probe true = read_body s reads clock probe body

  -- Steps 2 and 3, on the probe's flag.
  pub authorise_flag : ServerOf → Reads → Clock → Body → Probe → Bool → ServerOf × Response
  authorise_flag s reads clock body probe false =
      (reject s probe_disabled, write_error 403 probe_disabled msg_disabled)
  authorise_flag s reads clock body probe true =
      let (s', allowed) = allow_of s s.limiter probe.probe_id clock in
      within_rate s' reads clock body probe allowed

  pub authorise : ServerOf → Reads → Clock → Body → Probe → ServerOf × Response
  authorise s reads clock body probe = authorise_flag s reads clock body probe probe.enabled

  pub after_authentication : ServerOf → Reads → Clock → Body → Authenticated → ServerOf × Response
  after_authentication s reads clock body (denied response) = (s, response)
  after_authentication s reads clock body (granted probe) = authorise s reads clock body probe

  unfoldable pub handle_push : ServerOf → Reads → Clock → PushCall → ServerOf × Response
  handle_push s reads clock r =
      let (s', auth) = authenticate I.rate I.net I.token_hash s reads clock r in
      after_authentication s' reads clock r.body auth

  -- All that a run of `handle_push` computes with, past the rules themselves.
  unfoldable pub push_runs : Unit {0}
  unfolding accept judge check_reads check_request check_decoded read_body allow_of within_rate
      authorise_flag authorise after_authentication handle_push
  push_runs = tt

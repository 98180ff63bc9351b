-- ===== src/Api/Push/Effects.antt =====
-- Which pushes are accepted, and what a push does to the measurements that are kept.
use cqu_netprobe_gateway.Prelude.{
  ℕ, String, Bool, true, false, Option, none, some, List, ◌≡◌, ◌≢◌, ◌⊎◌, ◌∙◌, refl, sym, ap, inl,
  inr, arith,
}
use cqu_netprobe_gateway.Latest.{put}
use cqu_netprobe_gateway.Protocol.Errors.{Error, Result, ok, err}
use cqu_netprobe_gateway.Protocol.Types.{PushRequest, Allowlist}
use cqu_netprobe_gateway.Protocol.Config.{MeasurementConfig}
use cqu_netprobe_gateway.Protocol.ConfigId.{config_id}
use cqu_netprobe_gateway.Protocol.Decode.{decode}
use cqu_netprobe_gateway.Protocol.Request.{validate_request}
use cqu_netprobe_gateway.Store.{Probe, StoredTarget}
use cqu_netprobe_gateway.Api.Errors.{Response, no_content}
use cqu_netprobe_gateway.Api.Limiter.{Limiter}
use cqu_netprobe_gateway.Api.Server.{
  PushCall, Body, body_bytes, body_too_large, body_failed, Clock, Reads,
}
use cqu_netprobe_gateway.Api.Authenticate.{Authenticated, denied, granted, authenticate}
use cqu_netprobe_gateway.Api.Authenticate.Effects.{authenticate-Unchanged, authenticate-IsAnswer}
use cqu_netprobe_gateway.Api.Push.{
  Imports, ServerOf, dispatch_entries, accept, judge, check_reads, check_request, check_decoded,
  read_body, allow_of, within_rate, authorise_flag, authorise, after_authentication, handle_push,
}

module _ (I : Imports) where
  -- A body that decodes to a request which passes the rules, against the allowlist and the
  -- configuration that the database holds.
  pub record IsAcceptable (reads : Reads) (body : Body) : Type 0 where
    pub bytes : List ℕ
    pub req : PushRequest
    pub allowlist : Allowlist
    pub config : MeasurementConfig × Bool
    pub targets : List StoredTarget
    pub body_read : body ≡ body_bytes bytes
    pub decoded : decode I.json bytes ≡ ok req
    pub allowlist_read : reads.allowlist ≡ some allowlist
    pub config_read : reads.measurement_config ≡ some config
    pub targets_read : reads.dispatch_targets ≡ some targets
    pub valid :
        validate_request allowlist
          (config_id I.marshal I.sha1 config.0 (dispatch_entries targets))
          req
        ≡ none

  -- The server after authentication.
  abbrev pub auth_state : ServerOf I → Reads → Clock → PushCall → ServerOf I
  auth_state s reads clock r = (authenticate I.rate I.net I.token_hash s reads clock r).0

  -- The server and the limiter's answer, after authentication.
  abbrev pub spent : ServerOf I → Reads → Clock → PushCall → Probe → ServerOf I × Bool
  spent s reads clock r probe =
      allow_of I (auth_state s reads clock r) (auth_state s reads clock r).limiter probe.probe_id
        clock

  -- A push of a known and enabled probe, within its allowance, whose body is acceptable.
  pub record IsAcceptedPush (s : ServerOf I) (reads : Reads) (clock : Clock) (r : PushCall)
      : Type 0 where
    pub probe : Probe
    pub known : (authenticate I.rate I.net I.token_hash s reads clock r).1 ≡ granted probe
    pub enabled : probe.enabled ≡ true
    pub allowed : (spent s reads clock r probe).1 ≡ true
    pub body : IsAcceptable reads r.body

  -- The two outcomes of the last steps: the measurements of this probe are replaced and nothing else
  -- is, or no measurement changes.
  abbrev Judged : ServerOf I → Reads → Clock → Probe → Body → ServerOf I × Response → Type 0
  Judged s reads clock probe body out =
      ((a : IsAcceptable reads body) × (out.1 ≡ no_content)
        × (out.0.latest ≡ put s.latest probe.probe_id a.req.results clock.received_at))
      ⊎ ((out.1 ≢ no_content) × (out.0.latest ≡ s.latest))

  judge-Judged :
      (s : ServerOf I) (reads : Reads) (clock : Clock) (probe : Probe) (body : Body)
      (req : PushRequest) (o : Option Error)
      → ((o ≡ none) → (a : IsAcceptable reads body) × (a.req ≡ req))
      → Judged s reads clock probe body (judge I s clock probe req o)
  unfolding judge accept
  judge-Judged s reads clock probe body req (some e) f = inr (ground arith, refl)
  judge-Judged s reads clock probe body req none f =
      let (a, e) = f refl in
      inl (
        a,
        refl,
        ap (λ (q : PushRequest). put s.latest probe.probe_id q.results clock.received_at) (sym e),
      )

  check_reads-Judged :
      (s : ServerOf I) (reads : Reads) (clock : Clock) (probe : Probe) (bytes : List ℕ)
      (req : PushRequest) (al : Option Allowlist) (config : Option (MeasurementConfig × Bool))
      (targets : Option (List StoredTarget))
      → decode I.json bytes ≡ ok req
      → reads.allowlist ≡ al
      → reads.measurement_config ≡ config
      → reads.dispatch_targets ≡ targets
      → Judged s reads clock probe
          (body_bytes bytes)
          (check_reads I s clock probe req al config targets)
  unfolding check_reads
  check_reads-Judged s reads clock probe bytes req none config targets d e f g =
      inr (ground arith, refl)
  check_reads-Judged s reads clock probe bytes req (some al) none targets d e f g =
      inr (ground arith, refl)
  check_reads-Judged s reads clock probe bytes req (some al) (some config) none d e f g =
      inr (ground arith, refl)
  check_reads-Judged s reads clock probe bytes req (some al) (some config) (some targets) d e f g =
      judge-Judged s reads clock probe (body_bytes bytes) req _ (λ v. (
        record {
          bytes = bytes;
          req = req;
          allowlist = al;
          config = config;
          targets = targets;
          body_read = refl;
          decoded = d;
          allowlist_read = e;
          config_read = f;
          targets_read = g;
          valid = v;
        },
        refl,
      ))

  check_decoded-Judged :
      (s : ServerOf I) (reads : Reads) (clock : Clock) (probe : Probe) (bytes : List ℕ)
      (o : Result PushRequest)
      → decode I.json bytes ≡ o
      → Judged s reads clock probe (body_bytes bytes) (check_decoded I s reads clock probe o)
  unfolding check_decoded check_request
  check_decoded-Judged s reads clock probe bytes (err e) d = inr (ground arith, refl)
  check_decoded-Judged s reads clock probe bytes (ok req) d =
      check_reads-Judged s reads clock probe bytes req reads.allowlist reads.measurement_config
        reads.dispatch_targets d refl refl refl

  read_body-Judged :
      (s : ServerOf I) (reads : Reads) (clock : Clock) (probe : Probe) (body : Body)
      → Judged s reads clock probe body (read_body I s reads clock probe body)
  unfolding read_body
  read_body-Judged s reads clock probe body_too_large = inr (ground arith, refl)
  read_body-Judged s reads clock probe body_failed = inr (ground arith, refl)
  read_body-Judged s reads clock probe (body_bytes bytes) =
      check_decoded-Judged s reads clock probe bytes (decode I.json bytes) refl

  -- The outcome of a whole push.
  abbrev pub Pushed : ServerOf I → Reads → Clock → PushCall → ServerOf I × Response → Type 0
  Pushed s reads clock r out =
      ((a : IsAcceptedPush s reads clock r) × (out.1 ≡ no_content)
        × (out.0.latest ≡ put s.latest a.probe.probe_id a.body.req.results clock.received_at))
      ⊎ ((out.1 ≢ no_content) × (out.0.latest ≡ s.latest))

  allow_of-latest :
      (s : ServerOf I) (o : Option (Limiter I.rate)) (probe_id : String) (clock : Clock)
      → (allow_of I s o probe_id clock).0.latest ≡ s.latest
  unfolding allow_of
  allow_of-latest s none probe_id clock = refl
  allow_of-latest s (some l) probe_id clock = refl

  within_rate-Pushed :
      (s : ServerOf I) (reads : Reads) (clock : Clock) (r : PushCall) (probe : Probe) (b : Bool)
      → (authenticate I.rate I.net I.token_hash s reads clock r).1 ≡ granted probe
      → probe.enabled ≡ true
      → (spent s reads clock r probe).1 ≡ b
      → (spent s reads clock r probe).0.latest ≡ s.latest
      → Pushed s reads clock r
          (within_rate I (spent s reads clock r probe).0 reads clock r.body probe b)
  unfolding within_rate
  within_rate-Pushed s reads clock r probe false h on e kept = inr (ground arith, kept)
  within_rate-Pushed s reads clock r probe true h on e kept =
      body_outcome (read_body I (spent s reads clock r probe).0 reads clock probe r.body)
        (read_body-Judged (spent s reads clock r probe).0 reads clock probe r.body)
    where
      body_outcome :
          (out : ServerOf I × Response)
          → Judged (spent s reads clock r probe).0 reads clock probe r.body out
          → Pushed s reads clock r out
      body_outcome out (inl (a, sent, l)) = inl (
        record { probe = probe; known = h; enabled = on; allowed = e; body = a },
        sent,
        l ∙ ap (λ m. put m probe.probe_id a.req.results clock.received_at) kept,
      )
      body_outcome out (inr (ne, l)) = inr (ne, l ∙ kept)

  authorise_flag-Pushed :
      (s : ServerOf I) (reads : Reads) (clock : Clock) (r : PushCall) (probe : Probe) (b : Bool)
      → (authenticate I.rate I.net I.token_hash s reads clock r).1 ≡ granted probe
      → probe.enabled ≡ b
      → Pushed s reads clock r
          (authorise_flag I (auth_state s reads clock r) reads clock r.body probe b)
  unfolding authorise_flag
  authorise_flag-Pushed s reads clock r probe false h e =
      inr
        (ground arith, (authenticate-Unchanged I.rate I.net I.token_hash s reads clock r).latest_eq)
  authorise_flag-Pushed s reads clock r probe true h e =
      within_rate-Pushed s reads clock r probe _ h e refl (
        allow_of-latest (auth_state s reads clock r) (auth_state s reads clock r).limiter
          probe.probe_id clock
        ∙ (authenticate-Unchanged I.rate I.net I.token_hash s reads clock r).latest_eq)

  -- A push is answered 204 where the probe is known and enabled, is within its allowance and sends an
  -- acceptable body, and then its measurements, and no others, are replaced by those of the body,
  -- stamped with the server's clock. Any other answer leaves every measurement as it was.
  pub handle_push-Pushed :
      (s : ServerOf I) (reads : Reads) (clock : Clock) (r : PushCall)
      → Pushed s reads clock r (handle_push I s reads clock r)
  unfolding handle_push after_authentication authorise
  handle_push-Pushed s reads clock r =
      from_answer (authenticate I.rate I.net I.token_hash s reads clock r).1 refl
    where
      from_answer :
          (o : Authenticated)
          → (authenticate I.rate I.net I.token_hash s reads clock r).1 ≡ o
          → Pushed s reads clock r
              (after_authentication I (auth_state s reads clock r) reads clock r.body o)
      from_answer (denied response) h = inr (
        authenticate-IsAnswer I.rate I.net I.token_hash s reads clock r response h,
        (authenticate-Unchanged I.rate I.net I.token_hash s reads clock r).latest_eq,
      )
      from_answer (granted probe) h =
          authorise_flag-Pushed s reads clock r probe probe.enabled h refl

  -- Such a push is always answered 204.
  pub handle_push_accepted :
      (s : ServerOf I) (reads : Reads) (clock : Clock) (r : PushCall)
      → IsAcceptedPush s reads clock r
      → (handle_push I s reads clock r).1 ≡ no_content
  unfolding handle_push after_authentication authorise authorise_flag within_rate read_body
      check_decoded check_request check_reads judge accept
  handle_push_accepted s reads clock r a =
      let t = auth_state s reads clock r in
      let u = (spent s reads clock r a.probe).0 in
      let b = a.body in
      ap (λ o. (after_authentication I t reads clock r.body o).1) a.known
      ∙ ap (λ on. (authorise_flag I t reads clock r.body a.probe on).1) a.enabled
      ∙ ap (λ within. (within_rate I u reads clock r.body a.probe within).1) a.allowed
      ∙ ap (λ body. (read_body I u reads clock a.probe body).1) b.body_read
      ∙ ap (λ o. (check_decoded I u reads clock a.probe o).1) b.decoded
      ∙ ap
          (λ al.
            (check_reads I u clock a.probe b.req al reads.measurement_config
              reads.dispatch_targets).1)
          b.allowlist_read
      ∙ ap
          (λ c. (check_reads I u clock a.probe b.req (some b.allowlist) c reads.dispatch_targets).1)
          b.config_read
      ∙ ap (λ ts. (check_reads I u clock a.probe b.req (some b.allowlist) (some b.config) ts).1)
          b.targets_read
      ∙ ap (λ o. (judge I u clock a.probe b.req o).1) b.valid

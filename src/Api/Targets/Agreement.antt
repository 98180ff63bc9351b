-- ===== src/Api/Targets/Agreement.antt =====
-- The two endpoints agree: a probe that measured with what it was handed is not sent back for it.
use cqu_netprobe_gateway.Prelude.{
  some_inj, String, Bool, true, false, Option, none, some, List, ◌≡◌, ◌≢◌, refl, sym, ap, ap₂, ◌∙◌,
  arith,
}
use cqu_netprobe_gateway.Protocol.Errors.{Error, config_stale}
use cqu_netprobe_gateway.Protocol.Types.{Allowlist, PushRequest}
use cqu_netprobe_gateway.Protocol.Config.{MeasurementConfig}
use cqu_netprobe_gateway.Protocol.ConfigId.{config_id}
use cqu_netprobe_gateway.Protocol.Request.{validate_request}
use cqu_netprobe_gateway.Protocol.Request.Staleness.{validate_request-stale}
use cqu_netprobe_gateway.Store.{StoredTarget}
use cqu_netprobe_gateway.Api.Server.{PushCall, Clock, Reads}
use cqu_netprobe_gateway.Api.Authenticate.{Authenticated, denied, granted, authenticate}
use cqu_netprobe_gateway.Api.Push.{Imports, ServerOf, dispatch_entries}
use cqu_netprobe_gateway.Api.Targets.{
  TargetsResponse, TargetsAnswer, served, refused, serve, serve_flag, targets_after, handle_targets,
}

module _ (I : Imports) where
  record IsServed (reads : Reads) (a : TargetsResponse) : Type 0 where
    config : MeasurementConfig × Bool
    targets : List StoredTarget
    config_read : reads.measurement_config ≡ some config
    targets_read : reads.dispatch_targets ≡ some targets
    id_eq : a.config_id ≡ config_id I.marshal I.sha1 config.0 (dispatch_entries targets)

  served_inj : (a b : TargetsResponse) → served a ≡ served b → a.config_id ≡ b.config_id
  served_inj a b h = ap id_of h
    where
      id_of : TargetsAnswer → String
      id_of (served x) = x.config_id
      id_of (refused y) = ""

  serve-IsServed :
      (s : ServerOf I) (reads : Reads) (a : TargetsResponse) (targets : Option (List StoredTarget))
      (config : Option (MeasurementConfig × Bool))
      → reads.dispatch_targets ≡ targets
      → reads.measurement_config ≡ config
      → (serve I s targets config).1 ≡ served a
      → IsServed reads a
  unfolding serve
  serve-IsServed s reads a none config e f h = absurd (ground (arith, h))
  serve-IsServed s reads a (some targets) none e f h = absurd (ground (arith, h))
  serve-IsServed s reads a (some targets) (some config) e f h = record {
    config = config;
    targets = targets;
    config_read = f;
    targets_read = e;
    id_eq = sym (served_inj _ a h);
  }

  handle_targets-IsServed :
      (s : ServerOf I) (reads : Reads) (clock : Clock) (r : PushCall) (a : TargetsResponse)
      → (handle_targets I s reads clock r).1 ≡ served a
      → IsServed reads a
  unfolding handle_targets targets_after serve_flag
  handle_targets-IsServed s reads clock r a h =
      from_answer (authenticate I.rate I.net I.token_hash s reads clock r).1 h
    where
      t : ServerOf I
      t = (authenticate I.rate I.net I.token_hash s reads clock r).0

      from_flag : (b : Bool) → (serve_flag I t reads b).1 ≡ served a → IsServed reads a
      from_flag false q = absurd (ground (arith, q))
      from_flag true q = serve-IsServed t reads a _ _ refl refl q

      from_answer :
          (o : Authenticated) → (targets_after I t reads o).1 ≡ served a → IsServed reads a
      from_answer (denied response) q = absurd (ground (arith, q))
      from_answer (granted probe) q = from_flag probe.enabled q

  -- While the parameters and the targets in the database stay the same, a request that names the
  -- configuration ID that the target list gave is not refused as stale, whatever the allowlist.
  pub validate-served :
      (s : ServerOf I) (reads : Reads) (clock : Clock) (r : PushCall) (a : TargetsResponse)
      (al : Allowlist) (config : MeasurementConfig × Bool) (targets : List StoredTarget)
      (req : PushRequest) (e : Error)
      → (handle_targets I s reads clock r).1 ≡ served a
      → reads.measurement_config ≡ some config
      → reads.dispatch_targets ≡ some targets
      → req.config_id ≡ a.config_id
      → validate_request al (config_id I.marshal I.sha1 config.0 (dispatch_entries targets)) req
        ≡ some e
      → e.code ≢ config_stale
  validate-served s reads clock r a al config targets req e h c t named v =
      let given = handle_targets-IsServed s reads clock r a h in
      validate_request-stale al _ req e (named ∙ given.id_eq ∙ same_id given) v
    where
      same_id :
          (given : IsServed reads a)
          → config_id I.marshal I.sha1 given.config.0 (dispatch_entries given.targets)
            ≡ config_id I.marshal I.sha1 config.0 (dispatch_entries targets)
      same_id given =
          ap₂
            (λ (c : MeasurementConfig × Bool) ts.
              config_id I.marshal I.sha1 c.0 (dispatch_entries ts))
            (some_inj (sym given.config_read ∙ c)) (some_inj (sym given.targets_read ∙ t))

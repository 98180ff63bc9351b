-- ===== src/Store/Settings/Dispatched.antt =====
-- What reaches the probes is always a valid configuration, and what an administrator stored.
use cqu_netprobe_gateway.Prelude.{
  String, Bool, true, false, Option, none, some, ◌≡◌, ◌⊎◌, ◌∙◌, refl, sym, ap, inl, inr, some_inj,
  arith,
}
use cqu_netprobe_gateway.Prelude.GoMap.{insert, lookup-insert_here}
use cqu_netprobe_gateway.Protocol.Config.{
  MeasurementConfig, ConfigError, validate, validate-default,
}
use cqu_netprobe_gateway.Store.Settings.{
  Settings, setting, measurement_config_key, SetOutcome, stored, if_valid, from_decoded,
  from_setting, measurement_config, write_outcome, write_encoded, write_valid,
  set_measurement_config,
}

module _ (unmarshal : String → Option MeasurementConfig)
    (marshal : MeasurementConfig → Option String) where
  from_decoded-valid :
      (o : Option MeasurementConfig) → validate (from_decoded unmarshal marshal o).0 ≡ none
  unfolding from_decoded if_valid
  from_decoded-valid none = validate-default
  from_decoded-valid (some cfg) = by_verdict (validate cfg) refl
    where
      by_verdict :
          (v : Option ConfigError)
          → validate cfg ≡ v
          → validate (if_valid unmarshal marshal cfg v).0 ≡ none
      by_verdict none e = e
      by_verdict (some d) e = validate-default

  -- Whatever the table holds, the parameters that are handed out are valid: those of another tool's
  -- edit that are not never reach a probe.
  pub measurement_config-valid :
      (fails : Bool) (table : Settings) (c : MeasurementConfig × Bool)
      → measurement_config unmarshal marshal fails table ≡ some c
      → validate c.0 ≡ none
  unfolding measurement_config from_setting
  measurement_config-valid fails table c h =
      from_found (setting fails table measurement_config_key) h
    where
      from_found :
          (o : Option (Option String))
          → from_setting unmarshal marshal o ≡ some c
          → validate c.0 ≡ none
      from_found none q = absurd (ground (arith, q))
      from_found (some none) q =
          ap (λ (d : MeasurementConfig × Bool). validate d.0) (sym (some_inj q)) ∙ validate-default
      from_found (some (some raw)) q =
          ap (λ (d : MeasurementConfig × Bool). validate d.0) (sym (some_inj q))
          ∙ from_decoded-valid (unmarshal raw)

  -- Where the encoding of a valid configuration decodes to it again, storing it hands it out, as the
  -- administrator's own.
  pub measurement_config-set :
      (table : Settings) (cfg : MeasurementConfig) (encoded : String)
      → validate cfg ≡ none
      → marshal cfg ≡ some encoded
      → unmarshal encoded ≡ some cfg
      → ((set_measurement_config unmarshal marshal false table cfg).1 ≡ stored)
        × (measurement_config unmarshal marshal false
              (set_measurement_config unmarshal marshal false table cfg).0
            ≡ some (cfg, true))
  unfolding set_measurement_config measurement_config write_valid write_encoded write_outcome
      from_setting from_decoded if_valid
  measurement_config-set table cfg encoded v m u =
      let written : set_measurement_config unmarshal marshal false table cfg
          ≡ (insert measurement_config_key encoded table, stored) =
        ap (write_valid unmarshal marshal false table cfg) v
        ∙ ap (write_encoded unmarshal marshal false table) m in
      (
        ap (λ (w : Settings × SetOutcome). w.1) written,
        ap (λ (w : Settings × SetOutcome). measurement_config unmarshal marshal false w.0) written
            ∙ ap (λ o. from_setting unmarshal marshal (some o))
                (lookup-insert_here measurement_config_key encoded table)
            ∙ ap (λ o. some (from_decoded unmarshal marshal o)) u
            ∙ ap (λ o. some (if_valid unmarshal marshal cfg o)) v,
      )

  -- A configuration that is not stored, for whatever reason, leaves what is handed out unchanged.
  pub measurement_config_unstored :
      (fails : Bool) (table : Settings) (cfg : MeasurementConfig)
      → ((set_measurement_config unmarshal marshal fails table cfg).1 ≡ stored)
        ⊎ ((set_measurement_config unmarshal marshal fails table cfg).0 ≡ table)
  unfolding set_measurement_config write_valid write_encoded write_outcome
  measurement_config_unstored fails table cfg = by_verdict (validate cfg)
    where
      by_driver :
          (b : Bool) (encoded : String)
          → ((write_encoded unmarshal marshal b table (some encoded)).1 ≡ stored)
            ⊎ ((write_encoded unmarshal marshal b table (some encoded)).0 ≡ table)
      by_driver true encoded = inr refl
      by_driver false encoded = inl refl

      by_encoding :
          (o : Option String)
          → ((write_encoded unmarshal marshal fails table o).1 ≡ stored)
            ⊎ ((write_encoded unmarshal marshal fails table o).0 ≡ table)
      by_encoding none = inr refl
      by_encoding (some encoded) = by_driver fails encoded

      by_verdict :
          (v : Option ConfigError)
          → ((write_valid unmarshal marshal fails table cfg v).1 ≡ stored)
            ⊎ ((write_valid unmarshal marshal fails table cfg v).0 ≡ table)
      by_verdict (some e) = inr refl
      by_verdict none = by_encoding (marshal cfg)

-- ===== src/Store/Settings.antt =====
-- internal/store/settings.go and measurement.go: the settings table, and the measurement parameters
-- kept in it. The flag `fails` is a failure of the driver; encoding/json is two parameters.
pub mod Dispatched
mod Tests
use cqu_netprobe_gateway.Prelude.{String, Bool, true, false, Option, none, some, List, []}
use cqu_netprobe_gateway.Prelude.GoMap.{GoMap, lookup, insert, erase}
use cqu_netprobe_gateway.Protocol.Config.{
  MeasurementConfig, ConfigError, validate, default_measurement_config,
}

-- Key and value; the key is the table's primary key.
abbrev pub Settings : Type 0
Settings = GoMap String

abbrev pub measurement_config_key : String
measurement_config_key = "measurement_config"

-- An error is `none`; a missing key is `some none`.
abbrev pub setting : Bool → Settings → String → Option (Option String)
setting true table key = none
setting false table key = some (lookup key table)

-- The table and whether the statement ran.
abbrev pub set_setting : Bool → Settings → String → String → Settings × Bool
set_setting true table key value = (table, false)
set_setting false table key value = (insert key value table, true)

abbrev pub delete_setting : Bool → Settings → String → Settings × Bool
delete_setting true table key = (table, false)
delete_setting false table key = (erase key table, true)

pub data SetOutcome : Type 0 where
  not_valid : ConfigError → SetOutcome
  not_encoded not_written stored : SetOutcome

abbrev pub defaults : MeasurementConfig × Bool
defaults = (default_measurement_config, false)

module _ (unmarshal : String → Option MeasurementConfig)
    (marshal : MeasurementConfig → Option String) where
  -- A decoded value, by the verdict on it.
  pub if_valid : MeasurementConfig → Option ConfigError → MeasurementConfig × Bool
  if_valid cfg none = (cfg, true)
  if_valid cfg (some e) = defaults

  pub from_decoded : Option MeasurementConfig → MeasurementConfig × Bool
  from_decoded none = defaults
  from_decoded (some cfg) = if_valid cfg (validate cfg)

  pub from_setting : Option (Option String) → Option (MeasurementConfig × Bool)
  from_setting none = none
  from_setting (some none) = some defaults
  from_setting (some (some raw)) = some (from_decoded (unmarshal raw))

  unfoldable pub measurement_config : Bool → Settings → Option (MeasurementConfig × Bool)
  measurement_config fails table = from_setting (setting fails table measurement_config_key)

  pub write_outcome : Settings × Bool → Settings × SetOutcome
  write_outcome (table, true) = (table, stored)
  write_outcome (table, false) = (table, not_written)

  pub write_encoded : Bool → Settings → Option String → Settings × SetOutcome
  write_encoded fails table none = (table, not_encoded)
  write_encoded fails table (some encoded) =
      write_outcome (set_setting fails table measurement_config_key encoded)

  pub write_valid : Bool → Settings → MeasurementConfig → Option ConfigError → Settings × SetOutcome
  write_valid fails table cfg (some e) = (table, not_valid e)
  write_valid fails table cfg none = write_encoded fails table (marshal cfg)

  unfoldable pub set_measurement_config :
      Bool → Settings → MeasurementConfig → Settings × SetOutcome
  set_measurement_config fails table cfg = write_valid fails table cfg (validate cfg)

  unfoldable pub reset_measurement_config : Bool → Settings → Settings × Bool
  reset_measurement_config fails table = delete_setting fails table measurement_config_key

  -- All that a run of `measurement_config` computes with.
  unfoldable pub settings_runs : Unit {0}
  unfolding if_valid from_decoded from_setting measurement_config
  settings_runs = tt

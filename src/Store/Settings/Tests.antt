-- ===== src/Store/Settings/Tests.antt =====
-- The defaults, stored under a name of their own.
use cqu_netprobe_gateway.Prelude.{String, false, Option, none, some, [], ◌≡◌, refl}
use cqu_netprobe_gateway.Prelude.GoMap.{lookup}
use cqu_netprobe_gateway.Protocol.Config.{MeasurementConfig, validate, default_measurement_config}
use cqu_netprobe_gateway.Store.Settings.{settings_runs}
use cqu_netprobe_gateway.Store.Settings.Dispatched.{measurement_config-valid}

abbrev encode : MeasurementConfig → Option String
encode c = some "saved"

abbrev decode_saved : String → Option MeasurementConfig
decode_saved s = some default_measurement_config

measurement_config-valid_example : validate default_measurement_config ≡ none
unfolding settings_runs lookup
measurement_config-valid_example =
    measurement_config-valid decode_saved encode false [] (default_measurement_config, false) refl

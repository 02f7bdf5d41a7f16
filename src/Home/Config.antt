-- ===== src/Home/Config.antt =====
-- loadConfig of cmd/home-automation-server/config.go. Reading the file and encoding/xml are
-- parameters; what the function logs of the devices is not modelled.
use mqtt_home_automation.Base.{◌++◌}
use mqtt_home_automation.Base.Result.{Result, ok, err, ◌>>=◌}
use mqtt_home_automation.Text.{Bytes, codes}
use mqtt_home_automation.Home.State.{Config, with_log_size}

-- The file cannot be read, with its name, or its XML not decoded, each with the text of the error.
pub data LoadError : Type 0 where
  not_read : Bytes → Bytes → LoadError
  not_parsed : Bytes → LoadError

pub error_text : LoadError → Bytes
error_text (not_read filename e) =
    codes "failed to read config file '" ++ (filename ++ (codes "': " ++ e))
error_text (not_parsed e) = codes "failed to parse XML config: " ++ e

unfoldable pub or_error : {A : Type 0} → (Bytes → LoadError) → Result Bytes A → Result LoadError A
or_error f (ok a) = ok a
or_error f (err e) = err (f e)

unfoldable pub load_config :
    (Bytes → Result Bytes Bytes) → (Bytes → Result Bytes Config) → Bytes → Result LoadError Config
unfolding or_error
load_config read_file unmarshal filename = do
  data' ← or_error (not_read filename) (read_file filename)
  config ← or_error not_parsed (unmarshal data')
  ok (with_log_size config)

-- ===== src/Runner/State.antt =====
-- The configuration and the global variables of cmd/command_runner_server/main.go, and loadConfig.
-- The templates are known by the pattern that they were parsed from.
pub mod Loading
use mqtt_home_automation.Base.{ℕ, Bool, List, [], ◌++◌, Option, none, some, if◌then◌else◌}
use mqtt_home_automation.Base.Result.{Result, ok, err}
use mqtt_home_automation.Text.{Bytes, codes, str_eq}
use mqtt_home_automation.Maps.{GoMap}

pub record Button : Type 0 where
  pub name : Bytes
  pub display_name : Bytes
  pub command : Bytes
  pub size : Bytes
  pub color : Bytes

pub record Server : Type 0 where
  pub interface : Bytes
  pub port : Bytes
  pub web_dir : Bytes
  pub ui_framework : Bytes

pub record Config : Type 0 where
  pub server : Server
  pub buttons : List Button

pub record State : Type 0 where
  pub config : Config
  pub command_outputs : GoMap Bytes
  pub templates : Bytes
  pub config_file : Bytes
  pub watched_files : GoMap ℕ
  pub last_reload_time : Option ℕ

pub data LoadError : Type 0 where
  not_read not_decoded : LoadError
  bad_templates : Bytes → LoadError

-- The default user interface.
pub with_framework : Config → Config
unfolding str_eq
with_framework c =
    if str_eq c.server.ui_framework []
    then record c { server = record c.server { ui_framework = codes "bootstrap" } }
    else c

-- What xml.Unmarshal makes of the file; whether the templates of a pattern are parsed, and the time,
-- are arguments. The globals are set only after every step that can fail.
unfoldable pub load_config :
    Result LoadError Config → (Bytes → Bool) → ℕ → State → Option LoadError × State
unfolding with_framework
load_config (err e) parses now s = (some e, s)
load_config (ok c) parses now s =
    let new_config = with_framework c in
    let template_path = new_config.server.web_dir ++ codes "/*.html" in
    if parses template_path
    then (
      none,
      record s { config = new_config; templates = template_path; last_reload_time = some now },
    )
    else (some (bad_templates template_path), s)

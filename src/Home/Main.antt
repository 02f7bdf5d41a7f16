-- ===== src/Home/Main.antt =====
-- main of cmd/home-automation-server (main.go), up to the web server, with
-- loadTemplates of web.go. What loadConfig gives, whether the templates are parsed, the MQTT client's
-- attempts to connect and what the first messages do are arguments of `main`; a fatal error ends the
-- program.
pub mod Serves
pub mod Early
use mqtt_home_automation.Base.{ℕ, Bool, List, [], ◌∷◌, ◌++◌, map, Option, none, some, if◌then◌else◌}
use mqtt_home_automation.Text.{Bytes, codes}
use mqtt_home_automation.Home.State.{App, Config, with_retry_interval}
use mqtt_home_automation.Home.Config.{LoadError, load_config}
use mqtt_home_automation.Base.Result.{Result, ok, err}
use mqtt_home_automation.Home.Connect.{
  Connection, connected, given_up, trying, connect_mqtt_with_retry, subscribe_to_status_topics,
}
use mqtt_home_automation.Home.Status.{initialize_device_status}

pub data Subscription : Type 0 where
  -- a status topic, and the device whose status it carries
  status_topic : Bytes × Bytes → Subscription
  -- "#"
  all_messages : Subscription

pub data Started : Type 0 where
  not_loaded : LoadError → Started
  bad_templates still_trying : Started
  not_connected : ℕ → Bytes → Started
  started : App → List Subscription → Started

abbrev pub new_app : Config → App
new_app config = record {
  config = config;
  device_status = [];
  ws_clients = [];
  log = [];
  frames = [];
  closed = [];
  commands = [];
  published = [];
}

-- The subscriptions of the connect handler, and then those of main.
pub subscriptions : Config → Bool → List Subscription
subscriptions config wildcard =
    let topics = map status_topic (subscribe_to_status_topics config.devices) in
    topics ++ (topics ++ (if wildcard then all_messages ∷ [] else []))

-- `early` is what the messages do that come between the connect handler's subscriptions and
-- initializeDeviceStatus.
unfoldable pub after_connect : Config → Bool → Bool → (App → App) → Connection → Started
unfolding subscriptions
after_connect config parses wildcard early (connected n) =
    if parses
    then started (initialize_device_status (early (new_app config))) (subscriptions config wildcard)
    else bad_templates
after_connect config parses wildcard early (given_up n e) = not_connected n e
after_connect config parses wildcard early trying = still_trying

-- The rounds of the connection loop are bounded by `fuel`.
unfoldable pub main :
    ℕ → Result LoadError Config → (ℕ → Option Bytes) → Bool → Bool → (App → App) → Started
unfolding after_connect
main fuel (err e) attempt parses wildcard early = not_loaded e
main fuel (ok file) attempt parses wildcard early =
    let config = with_retry_interval file in
    after_connect config parses wildcard early (connect_mqtt_with_retry config.mqtt attempt fuel)

-- The flags; that for the time stamps of the log is left out.
pub record Flags : Type 0 where
  pub config_file : Bytes
  pub web_dir : Bytes
  pub log_all_mqtt : Bool

-- What surrounds the program.
pub record Outside : Type 0 where
  pub read_file : Bytes → Result Bytes Bytes
  pub unmarshal : Bytes → Result Bytes Config
  -- filepath.Join, of two elements
  pub join_path : Bytes → Bytes → Bytes
  -- whether the templates of a pattern are parsed
  pub parses : Bytes → Bool
  -- the error of each attempt to connect
  pub attempt : ℕ → Option Bytes
  -- the messages that come before the statuses are initialized
  pub early : App → App

-- The pattern of loadTemplates.
unfoldable template_pattern : Outside → Bytes → Bytes
template_pattern o web_dir = o.join_path (o.join_path web_dir (codes "templates")) (codes "*.html")

-- The program, from the parsed flags on.
unfoldable pub run_program : ℕ → Outside → Flags → Started
unfolding template_pattern load_config
run_program fuel o flags =
    main fuel (load_config o.read_file o.unmarshal flags.config_file) o.attempt
      (o.parses (template_pattern o flags.web_dir)) flags.log_all_mqtt o.early

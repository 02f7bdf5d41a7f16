-- ===== src/Listener/Main.antt =====
-- main of cmd/mqtt_listener/main.go, from the parsed flags on. The XML file, net/url, the clock and
-- the MQTT client are parameters. A fatal error ends the program.
pub mod Runs
pub mod Topics
use mqtt_home_automation.Base.{
  ℕ, Bool, true, List, [], ◌∷◌, ◌++◌, Option, none, some, if◌then◌else◌,
}
use mqtt_home_automation.Base.Result.{Result, ok, err, ◌>>=◌}
use mqtt_home_automation.Text.{Bytes, codes, str_eq, itoa}
use mqtt_home_automation.Maps.{GoMap}
use mqtt_home_automation.Listener.Config.{
  Config, Command, Url, Error, check_args, load_xml_commands, parse_broker_url,
}
use mqtt_home_automation.Listener.Handle.{subscribe_topics}

-- What surrounds the program.
pub record Outside : Type 0 where
  -- ioutil.ReadFile and xml.Unmarshal: the commands, or the text of the error
  pub read_commands : Bytes → Result Bytes (List Command)
  -- url.Parse
  pub parse_url : Bytes → Option Url
  -- time.Now().Unix()
  pub unix_time : ℕ
  -- the error of Connect, and that of the subscription to a topic
  pub connect_error : Option Bytes
  pub subscribe_error : Bytes → Option Bytes

pub data Fatal : Type 0 where
  usage bad_commands bad_broker : Error → Fatal
  not_read not_connected : Bytes → Fatal
  not_subscribed : Bytes → Bytes → Fatal

pub record ClientOptions : Type 0 where
  pub broker : Bytes
  pub client_id : Bytes
  pub clean_session : Bool
  pub auto_reconnect : Bool
  -- in seconds
  pub keep_alive : ℕ
  pub ping_timeout : ℕ
  pub username : Option Bytes
  pub password : Option Bytes

pub record Listening : Type 0 where
  pub options : ClientOptions
  pub config : Config
  pub topics : List Bytes

or_fatal {ℓ} : {E : Type 0} {A : Type ℓ} → (E → Fatal) → Result E A → Result Fatal A
or_fatal f (ok a) = ok a
or_fatal f (err e) = err (f e)

not_empty : Bytes → Option Bytes
not_empty s = if str_eq s [] then none else some s

module _ (o : Outside) where
  unfoldable pub load_file : Bytes → Result Fatal (GoMap Bytes)
  unfolding or_fatal
  load_file name = do
    commands ← or_fatal not_read (o.read_commands name)
    or_fatal bad_commands (load_xml_commands commands)

  load_commands : Config → Result Fatal Config
  load_commands config =
      if str_eq config.config_file []
      then ok config
      else (do commands ← load_file config.config_file; ok (record config { commands = commands }))

  with_client_id : Config → Config
  with_client_id config =
      if str_eq config.client_id []
      then record config { client_id = codes "mqtt_listener_" ++ itoa o.unix_time }
      else config

  client_options : Bytes → Config → ClientOptions
  unfolding not_empty
  client_options broker config = record {
    broker = broker;
    client_id = config.client_id;
    clean_session = true;
    auto_reconnect = true;
    keep_alive = 60;
    ping_timeout = 1;
    username = not_empty config.username;
    password = not_empty config.password;
  }

  -- The loop of the connect handler: the first subscription that fails is fatal.
  unfoldable pub subscribe_all : List Bytes → Result Fatal (List Bytes)
  subscribe_all [] = ok []
  subscribe_all (topic ∷ topics) =
      let rest = (do done ← subscribe_all topics; ok (topic ∷ done)) in
      elim (o.subscribe_error topic) [ none ↦ rest | some e ↦ err (not_subscribed topic e) ]

  connect : Result Fatal (Unit {0})
  connect = elim o.connect_error [ none ↦ ok tt | some e ↦ err (not_connected e) ]

  -- From the broker's address and the topic on.
  listen : Config → Bytes × Bytes → Result Fatal Listening
  unfolding with_client_id client_options subscribe_all connect
  listen loaded (broker, topic) =
      let config = with_client_id (record loaded { topic = topic }) in
      do
        connected ← connect
        topics ← subscribe_all (subscribe_topics config)
        ok (record { options = client_options broker config; config = config; topics = topics })

  -- Once the commands are loaded.
  run_loaded : Config → Result Fatal Listening
  unfolding or_fatal listen
  run_loaded loaded = do
    parsed ← or_fatal bad_broker (parse_broker_url (o.parse_url loaded.broker_url))
    listen loaded parsed

  unfoldable pub main : Config → Result Fatal Listening
  unfolding or_fatal load_commands run_loaded
  main flags = do
    checked ← or_fatal usage (check_args flags)
    loaded ← load_commands checked
    run_loaded loaded

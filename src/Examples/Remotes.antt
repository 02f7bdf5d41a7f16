-- ===== src/Examples/Remotes.antt =====
-- A button of a web page that runs a command of the listener.
use mqtt_home_automation.Base.{
  ℕ, ◌≡◌, refl, Bool, true, false, [], ◌∷◌, ◌++◌, List, Option, none, some, arith, inl,
}
use mqtt_home_automation.Base.Int.{pos}
use mqtt_home_automation.Base.Result.{ok}
use mqtt_home_automation.Text.{Bytes, codes, str_eq}
use mqtt_home_automation.Maps.{GoMap, lookup}
use mqtt_home_automation.Home.State.{App, Config, Device, decoded, Value, WebSocketMessage}
use mqtt_home_automation.Home.Status.{
  Json, object, ran, initialize_device_status, on_status_message,
}
use mqtt_home_automation.Home.Control.{Request, handle_control}
use mqtt_home_automation.Home.Socket.{open_socket, send_statuses}
use mqtt_home_automation.Home.Connect.{connect_mqtt_with_retry}
use mqtt_home_automation.Home.Main.{Subscription, status_topic, started, new_app, main}
use mqtt_home_automation.Home.Main.Early.{none_yet}
use mqtt_home_automation.Home.Mirror.{Run, begin, then_step, is_handler}
use mqtt_home_automation.Home.Steps.{connect, greet_statuses}
use mqtt_home_automation.Listener.Handle.{
  Exit, success, Response, status_response, command_result, words_run, handle_message,
}
use mqtt_home_automation.Listener.Broker.{is_delivered}
use mqtt_home_automation.Examples.Listening.{outside, flags, listening, listens, from_file}
use mqtt_home_automation.Examples.Filters.{matches, matches-MatchesLevel}
use mqtt_home_automation.Examples.Server.{mqtt, attempts}
use mqtt_home_automation.Remote.{Shows, remote_command-Shows}

abbrev host : Device
host = record {
  id = codes "host";
  name = codes "Host";
  category = codes "host";
  status_topic = codes "home/list/status";
  controls = [];
}

abbrev config : Config
config = record {
  mqtt = mqtt 3;
  devices = host ∷ [];
  suppress_timestamp = true;
  categories = [];
  mqtt_log_size = pos 2;
}

abbrev fresh : App
fresh = initialize_device_status (new_app config)

abbrev host_status : Subscription
host_status = status_topic (codes "home/list/status", codes "host")

starts :
    main 3 (ok config) attempts true false (λ app. app)
    ≡ started fresh (host_status ∷ host_status ∷ [])
unfolding main connect_mqtt_with_retry mqtt_home_automation.Home.State.with_retry_interval
    mqtt_home_automation.Home.State.with_log_size
    mqtt_home_automation.Home.Connect.subscribe_to_status_topics
starts = refl

abbrev accepts : ℕ → WebSocketMessage → Bool
accepts c m = true

-- A program prints its own name.
abbrev exec : List Bytes → Bytes × Exit
exec [] = ([], success)
exec (w ∷ ws) = (w, success)

-- An answer is its output in a brace.
abbrev fields : Response → GoMap Value
fields (status_response s names now) = (codes "status", decoded s) ∷ []
fields (command_result output code) = (codes "output", decoded output) ∷ []

abbrev encode : Response → Bytes
encode (status_response s names now) = s
encode (command_result output code) = b'{' ∷ output

abbrev decode : Bytes → Option Json
decode [] = none
decode (c ∷ output) = some (object ((codes "output", decoded output) ∷ []))

abbrev press : Request
press = record {
  device = codes "host";
  topic = codes "home/list";
  payload = codes "go";
  local_command = [];
}

abbrev publishes : Bytes → Bytes → Bool
publishes topic payload = true

-- A page connects before the button is pressed.
abbrev joined : App
joined = send_statuses accepts 1 (open_socket 1 fresh)

abbrev pressed : ℕ × App
pressed = handle_control accepts publishes (codes "t") (codes "POST") (some press) joined

listed : lookup (codes "list") listening.config.commands ≡ some (codes "ls -l")
unfolding lookup str_eq
listed = refl

opened : Run fresh joined
unfolding is_handler initialize_device_status
opened =
    then_step (then_step begin (connect 1 fresh tt tt tt) refl)
      (greet_statuses accepts 1 (open_socket 1 fresh)) refl

remote_command-Shows_example :
    (pressed.0 ≡ 200)
    × (pressed.1.published ≡ joined.published ++ (codes "home/list", codes "go") ∷ [])
    × (is_delivered matches listening.topics (codes "home/list") ≡ true)
    × (handle_message exec listening.config (codes "u") (codes "home/list") ≡ record {
      executed = words_run (codes "ls" ∷ codes "-l" ∷ []);
      reply = some (codes "home/list/status", command_result (codes "ls") (pos 0));
    })
    × ((after : App) × (on_status_message accepts decode
            (codes "v")
            (codes "host")
            (codes "home/list/status")
            (codes "{ls")
            pressed.1
          ≡ ran after)
        × Shows ((codes "output", decoded (codes "ls")) ∷ []) (codes "v") (codes "host") after)
unfolding mqtt_home_automation.Listener.Handle.execute_command mqtt_home_automation.Text.fields
remote_command-Shows_example =
    remote_command-Shows 3 (ok config) attempts true false (λ app. app) outside exec flags
      (codes "list") (codes "ls -l") (codes "host") press accepts accepts publishes matches
      (codes "t") (codes "u") (codes "v") encode decode fields (λ app. none_yet) starts listens
      matches-MatchesLevel from_file (omega arith) listed (inl refl) refl refl refl opened begin

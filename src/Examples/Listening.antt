-- ===== src/Examples/Listening.antt =====
-- Runs of cmd/mqtt_listener.
use mqtt_home_automation.Base.{ℕ, ◌≡◌, refl, Bool, true, false, List, [], ◌∷◌, none, some, arith}
use mqtt_home_automation.Base.Int.{pos}
use mqtt_home_automation.Base.Result.{ok}
use mqtt_home_automation.Text.{Bytes, codes, str_eq, trim_prefix, trim_space}
use mqtt_home_automation.Maps.{GoMap, lookup, keys}
use mqtt_home_automation.Listener.Config.{
  Config, Command, Url, check_args, load_xml_commands, parse_broker_url,
}
use mqtt_home_automation.Listener.Handle.{
  Exit, success, status_response, command_result, not_found_text, handle_message, subscribe_topics,
  run_named,
}
use mqtt_home_automation.Listener.Broker.{deliver_all}
use mqtt_home_automation.Listener.Broker.Feedback.{status_query_runs}
use mqtt_home_automation.Listener.Broker.Delivered.{IsPlain}
use mqtt_home_automation.Listener.Broker.Settles.{main_settles}
use mqtt_home_automation.Examples.Filters.{
  matches, matches-MatchesLevel, matches-MatchesMqtt, is_end, no_slash,
}
use mqtt_home_automation.Listener.Main.{Outside, Listening, main}
use mqtt_home_automation.Listener.Main.Runs.{RunsConfigured, main_runs}

abbrev pub config : Config
config = record {
  broker_url = codes "tcp://b:1883";
  topic = codes "home";
  command = [];
  username = [];
  password = [];
  client_id = codes "l";
  config_file = codes "c.xml";
  commands = (codes "list", codes "ls -l") ∷ [];
}

abbrev exec : List Bytes → Bytes × Exit
exec ws = ([], success)

pub from_file : str_eq config.config_file [] ≡ false
unfolding str_eq
from_file = refl

loads :
    load_xml_commands
      (record { name = codes "list"; description = []; command = codes " ls -l" } ∷ [])
    ≡ ok ((codes "list", codes "ls -l") ∷ [])
unfolding load_xml_commands mqtt_home_automation.Listener.Config.add_commands str_eq
    mqtt_home_automation.Maps.insert trim_space
loads = refl

abbrev url : Url
url = record {
  scheme = codes "mqtt";
  host = codes "b";
  hostname = codes "b";
  port = [];
  path = codes "/home/x";
}

reads_url : parse_broker_url (some url) ≡ ok (codes "tcp://b:1883", codes "home/x")
unfolding parse_broker_url str_eq trim_prefix
reads_url = refl

-- The program, with the same configuration file.
abbrev pub outside : Outside
outside = record {
  read_commands =
      λ f. ok (record { name = codes "list"; description = []; command = codes " ls -l" } ∷ []);
  parse_url = λ u. some (record url { path = codes "/home" });
  unix_time = 7;
  connect_error = none;
  subscribe_error = λ t. none;
}

abbrev pub flags : Config
flags = record config { topic = []; commands = [] }

abbrev pub listening : Listening
listening = record {
  options = record {
    broker = codes "tcp://b:1883";
    client_id = codes "l";
    clean_session = true;
    auto_reconnect = true;
    keep_alive = 60;
    ping_timeout = 1;
    username = none;
    password = none;
  };
  config = config;
  topics = codes "home" ∷ codes "home/+" ∷ [];
}

pub listens : main outside flags ≡ ok listening
unfolding main check_args str_eq mqtt_home_automation.Listener.Main.load_file load_xml_commands
    mqtt_home_automation.Listener.Config.add_commands mqtt_home_automation.Maps.insert
    parse_broker_url trim_prefix subscribe_topics mqtt_home_automation.Listener.Main.subscribe_all
    trim_space
listens = refl

main_runs_example :
    RunsConfigured outside flags listening
      (codes "home/list")
      (handle_message exec config (codes "t") (codes "home/list")).executed
main_runs_example = main_runs outside exec flags (codes "t") (codes "home/list") listens

-- Every publication is taken, and the clock counts.
abbrev takes : Bytes → Bool
takes topic = true

abbrev clock : ℕ → Bytes
clock n = n ∷ []

status_query_runs_example :
    (deliver_all matches takes exec clock 2 listening
      (record { waiting = codes "home" ∷ []; reactions = [] })).reactions
    ≡ record {
      executed = [];
      reply =
          some
            (codes "home/status", status_response (codes "listening") (codes "list" ∷ []) (0 ∷ []));
    }
      ∷ record {
        executed = [];
        reply = some (
          codes "home/status/status",
          command_result (not_found_text (codes "status") config.commands) (pos 1),
        );
      }
      ∷ []
unfolding keys lookup str_eq run_named
status_query_runs_example =
    status_query_runs outside exec matches takes clock flags matches-MatchesLevel listens from_file
      refl

home-IsPlain : IsPlain listening.config.topic
home-IsPlain = omega arith

main_settles_example :
    (deliver_all matches takes exec clock 4 listening
      (record { waiting = codes "home" ∷ codes "home/list" ∷ []; reactions = [] })).waiting
    ≡ []
unfolding mqtt_home_automation.Listener.Broker.is_delivered matches is_end no_slash
main_settles_example =
    main_settles outside exec matches takes clock flags (codes "home" ∷ codes "home/list" ∷ []) []
      matches-MatchesMqtt listens home-IsPlain (refl, (refl, tt))

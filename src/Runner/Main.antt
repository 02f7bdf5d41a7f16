-- ===== src/Runner/Main.antt =====
-- main of cmd/command_runner_server/main.go up to the web server, and initFileWatcher. The flags,
-- what the configuration file decodes to, and the file system are arguments.
pub mod Watches
pub mod Follows
use mqtt_home_automation.Base.{ℕ, Bool, List, [], ◌++◌, Option, none, some}
use mqtt_home_automation.Base.Result.{Result}
use mqtt_home_automation.Text.{Bytes, codes}
use mqtt_home_automation.Runner.State.{State, Config, Server, LoadError, load_config}
use mqtt_home_automation.Runner.Watcher.{get_watched_files, init_files}

-- The global variables before main.
abbrev pub initial : State
initial = record {
  config = record {
    server = record { interface = []; port = []; web_dir = []; ui_framework = [] };
    buttons = [];
  };
  command_outputs = [];
  templates = [];
  config_file = [];
  watched_files = [];
  last_reload_time = none;
}

pub data Started : Type 0 where
  -- log.Fatal
  not_loaded : LoadError → Started
  -- the server's address, the directory of its static files, and the state
  serving : Bytes → Bytes → State → Started

module _ (glob : Bytes → Option (List Bytes)) (mod_time : Bytes → Option ℕ) where
  unfoldable pub init_file_watcher : State → State
  init_file_watcher s = record s {
    watched_files = init_files mod_time (get_watched_files glob s) s.watched_files;
  }

  unfoldable pub after_load : ℕ → Option LoadError × State → Started
  unfolding init_file_watcher
  after_load start (some e, s) = not_loaded e
  after_load start (none, s) =
      let server = s.config.server in
      serving (server.interface ++ (codes ":" ++ server.port)) (server.web_dir ++ codes "/static/")
        (init_file_watcher (record s { last_reload_time = some start }))

  -- `start` is the time of the start, `loaded` that of the load.
  unfoldable pub main : Bytes → Result LoadError Config → (Bytes → Bool) → ℕ → ℕ → Started
  unfolding after_load
  main config_file file parses start loaded =
      after_load start
        (load_config file parses loaded (record initial { config_file = config_file }))

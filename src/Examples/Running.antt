-- ===== src/Examples/Running.antt =====
-- Runs of cmd/command_runner_server.
use mqtt_home_automation.Base.{
  ℕ, ◌/◌, ◌≡◌, refl, Bool, true, false, List, [], ◌∷◌, Option, none, some,
}
use mqtt_home_automation.Text.{Bytes, codes}
use mqtt_home_automation.Maps.{lookup}
use mqtt_home_automation.Runner.State.{State, Config, load_config}
use mqtt_home_automation.Base.Result.{ok}
use mqtt_home_automation.Runner.Output.{latest, max_output_size, text_at}
use mqtt_home_automation.Runner.Output.Tail.{last_bytes}
use mqtt_home_automation.Runner.Watcher.{check_for_changes}
use mqtt_home_automation.Runner.Duration.{Clock}

abbrev pub runner : State
runner = record {
  config = record {
    server = record {
      interface = [];
      port = codes "8080";
      web_dir = codes "web";
      ui_framework = codes "ionic";
    };
    buttons = [];
  };
  command_outputs = [];
  templates = [];
  config_file = codes "c.xml";
  watched_files = [];
  last_reload_time = none;
}

no_output : text_at latest runner.command_outputs ≡ last_bytes max_output_size []
unfolding text_at lookup
no_output = refl

abbrev pub glob : Bytes → Option (List Bytes)
glob pattern = some (codes "web/index.html" ∷ [])

abbrev pub mod_time : Bytes → Option ℕ
mod_time file = some 7

abbrev gone : Bytes → Option ℕ
gone file = none

nothing_new : (check_for_changes glob gone runner).0 ≡ false
unfolding check_for_changes mqtt_home_automation.Runner.Watcher.check_files
    mqtt_home_automation.Runner.Watcher.get_watched_files
    mqtt_home_automation.Runner.Watcher.check_file
nothing_new = refl

abbrev pub clock : Clock
clock = record {
  hours = λ d. d / 3_600_000_000_000;
  minutes = λ d. d / 60_000_000_000;
  seconds = λ d. d / 1_000_000_000;
}

-- The same configuration without a user interface.
abbrev pub unset : Config
unset = record runner.config { server = record runner.config.server { ui_framework = [] } }

abbrev pub parses : Bytes → Bool
parses pattern = true

accepted : (load_config (ok unset) parses 9 runner).0 ≡ none
unfolding load_config
accepted = refl

-- ===== src/Examples/Programs.antt =====
-- Runs of main of cmd/serial_expect, and of a case-sensitive pattern.
use mqtt_home_automation.Base.{
  ◌≡◌, ◌↔◌, ◌++◌, refl, true, List, [], ◌∷◌, none, some, All, Any, arith, inr,
}
use mqtt_home_automation.Base.Int.{pos}
use mqtt_home_automation.Base.Result.{ok}
use mqtt_home_automation.Text.{Bytes, codes, split}
use mqtt_home_automation.Serial.Config.{Config, NamedScript}
use mqtt_home_automation.Serial.Pattern.{case_sensitive}
use mqtt_home_automation.Serial.Pattern.Quotes.{quoted}
use mqtt_home_automation.Serial.Port.{World, recv, elapsed, done}
use mqtt_home_automation.Serial.Expect.{handle_expect}
use mqtt_home_automation.Serial.Expect.Stream.{stream}
use mqtt_home_automation.Serial.Expect.Lines.{IsRead, Begins, handle_expect_sensitive}
use mqtt_home_automation.Serial.Select.{select_scripts}
use mqtt_home_automation.Serial.Try.Sends.{sends}
use mqtt_home_automation.Serial.DryRun.{Dry}
use mqtt_home_automation.Serial.Main.{Flags, Outside, completed, dry_completed, main}
use mqtt_home_automation.Serial.Main.Prepared.{ParsesTo}
use mqtt_home_automation.Serial.Main.Completes.{main-sends, main_dry_run_agrees}
use mqtt_home_automation.Examples.Ports.{bench, world, texts, chat, script_text}
use mqtt_home_automation.Examples.Runs.{log_file, dry}

-- A configuration with one script.
abbrev pub config : Config
config = record {
  serial = record { device = codes "tty"; speed = 9600; parity = true; bits = 7 };
  timeout = record { script = codes "1m"; receive = codes "30" };
  scripts = record { name = codes "log"; content = script_text } ∷ [];
  tries = [];
}

abbrev outside : Outside
outside = record {
  compile = bench.compile;
  parse_duration = λ d. some (pos 30);
  read_file = λ f. some log_file;
  parse_config = λ f. some config;
  open_error = λ device mode. none;
  world = world chat;
  in_time = true;
}

abbrev real : Flags
real = record { config_file = codes "c"; dry_run = []; script_names = [] }

abbrev trial : Flags
trial = record { config_file = codes "c"; dry_run = codes "in"; script_names = [] }

abbrev after_main : World
after_main = record {
  events = recv (codes "!") ∷ elapsed ∷ [];
  write_results = [];
  tx = codes "ls\r" ∷ codes "x\n" ∷ [];
  handed = codes "ls\r" ∷ codes "x\n" ∷ [];
  shown = [];
  timers = pos 30 ∷ [];
}

runs_real : main outside real ≡ completed after_main
unfolding main mqtt_home_automation.Text.str_eq mqtt_home_automation.Serial.Select.parse_timeouts
    select_scripts mqtt_home_automation.Maps.insert mqtt_home_automation.Serial.Select.all_commands
    mqtt_home_automation.Serial.Select.parse_selected mqtt_home_automation.Text.has_prefix
    mqtt_home_automation.Serial.Script.parse_script
    mqtt_home_automation.Serial.Timeout.execute_script_with_timeout
    mqtt_home_automation.Serial.Execute.execute_script
    mqtt_home_automation.Serial.Execute.run_command mqtt_home_automation.Serial.Port.handle_send
    handle_expect mqtt_home_automation.Serial.Pattern.parse_expect_pattern
    mqtt_home_automation.Serial.Pattern.byte_at mqtt_home_automation.Serial.Pattern.check_match
    mqtt_home_automation.Text.contains mqtt_home_automation.Text.to_lower
    mqtt_home_automation.Serial.Pattern.slice
runs_real = refl

runs_trial : main outside trial ≡ dry_completed dry
unfolding main mqtt_home_automation.Text.str_eq mqtt_home_automation.Serial.Select.parse_timeouts
    select_scripts mqtt_home_automation.Maps.insert mqtt_home_automation.Serial.Select.all_commands
    mqtt_home_automation.Serial.Select.parse_selected mqtt_home_automation.Text.has_prefix
    mqtt_home_automation.Serial.Script.parse_script
    mqtt_home_automation.Serial.DryRun.execute_dry_run
    mqtt_home_automation.Serial.DryRun.dry_commands mqtt_home_automation.Serial.DryRun.dry_expect
    mqtt_home_automation.Serial.Pattern.parse_expect_pattern
    mqtt_home_automation.Serial.Pattern.byte_at mqtt_home_automation.Serial.DryRun.search_lines
    mqtt_home_automation.Serial.DryRun.dry_send split
    mqtt_home_automation.Serial.Pattern.check_dry_run_match mqtt_home_automation.Text.contains
    mqtt_home_automation.Text.to_lower mqtt_home_automation.Serial.Pattern.slice
    mqtt_home_automation.Serial.Pattern.format_send_value
runs_trial = refl

main_dry_run_agrees_example : after_main.tx ≡ [] ++ dry.tx
main_dry_run_agrees_example =
    main_dry_run_agrees outside trial real config dry after_main refl refl refl refl runs_trial
      runs_real

main-sends_example :
    (selected : List NamedScript) × (cs : List _) × (select_scripts config [] ≡ ok selected)
    × ParsesTo config selected cs
    × (after_main.tx ≡ [] ++ sends cs)
main-sends_example = main-sends outside real config after_main refl refl runs_real

texts-IsRead : All IsRead texts
texts-IsRead = (
  inr (omega arith, tt),
  (inr (omega arith, tt), (inr (omega arith, tt), (inr (omega arith, tt), tt))),
)

handle_expect_sensitive_example :
    ((handle_expect bench (quoted b'"' (codes "Log")) (world chat)).0 ≡ done)
    ↔ Any (Begins (codes "Log")) (split (stream texts) b'\n')
handle_expect_sensitive_example =
    handle_expect_sensitive bench (codes "Log") texts [] (world chat) (λ e. cc e) texts-IsRead refl

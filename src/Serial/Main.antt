-- ===== src/Serial/Main.antt =====
-- main and openSerial of cmd/serial_expect/main.go, from the parsed flags on. What reading and
-- decoding the configuration, reading the dry run's input and opening the port give are arguments;
-- a fatal error ends the program.
pub mod Prepared
pub mod Completes
use mqtt_home_automation.Base.{ℕ, Bool, List, [], ◌∷◌, Option, none, some, if◌then◌else◌}
use mqtt_home_automation.Base.Int.{ℤ}
use mqtt_home_automation.Base.Result.{Result, ok, err}
use mqtt_home_automation.Text.{Bytes, str_eq}
use mqtt_home_automation.Serial.Config.{Config, Command, NamedScript, Serial}
use mqtt_home_automation.Serial.Errors.{Error}
use mqtt_home_automation.Serial.Port.{World, Env}
use mqtt_home_automation.Serial.Execute.{execute_script}
use mqtt_home_automation.Serial.Timeout.{TimeoutError, execute_script_with_timeout}
use mqtt_home_automation.Serial.Select.{select_scripts, all_commands, parse_timeouts}
use mqtt_home_automation.Serial.DryRun.{Dry, execute_dry_run}

-- serial.Mode
pub data Parity : Type 0 where
  no_parity even_parity : Parity

pub record Mode : Type 0 where
  pub baud_rate : ℕ
  pub data_bits : ℕ
  pub parity : Parity
  pub stop_bits : ℕ

unfoldable pub mode_of : Serial → Mode
mode_of config = record {
  baud_rate = config.speed;
  data_bits = config.bits;
  parity = if config.parity then even_parity else no_parity;
  stop_bits = 1;
}

pub record Flags : Type 0 where
  pub config_file : Bytes
  pub dry_run : Bytes
  -- flag.Args
  pub script_names : List Bytes

-- What surrounds the program.
pub record Outside : Type 0 where
  -- regexp.Compile and MatchString, time.ParseDuration
  pub compile : Bytes → Option (Bytes → Bool)
  pub parse_duration : Bytes → Option ℤ
  -- os.ReadFile of the dry run's input
  pub read_file : Bytes → Option Bytes
  -- parseConfig: os.ReadFile and xml.Unmarshal
  pub parse_config : Bytes → Option Config
  -- serial.Open: its error, if there is one
  pub open_error : Bytes → Mode → Option Bytes
  -- what the port does, and whether a script that returns does so in time
  pub world : World
  pub in_time : Bool

pub data Fault : Type 0 where
  config_not_parsed : Fault
  bad_timeouts bad_selection bad_script dry_run_failed : Error → Fault
  no_input : Fault
  not_opened : Bytes → Fault
  script_failed : TimeoutError → Fault

pub data Ending : Type 0 where
  usage : Ending
  fatal : Fault → Ending
  dry_completed : Dry → Ending
  completed : World → Ending

ended : Option TimeoutError → World → Ending
ended none w = completed w
ended (some e) w = fatal (script_failed e)

module _ (o : Outside) where
  dry_ended : Result Error Dry → Ending
  dry_ended (ok d) = dry_completed d
  dry_ended (err e) = fatal (dry_run_failed e)

  run_dry : List Command → Option Bytes → Ending
  unfolding dry_ended
  run_dry commands none = fatal no_input
  run_dry commands (some input) = dry_ended (execute_dry_run o.compile input commands)

  abbrev pub env_of : ℤ → Env
  env_of receive_timeout = record {
    compile = o.compile;
    parse_duration = o.parse_duration;
    receive_timeout = receive_timeout;
  }

  run_opened : ℤ × ℤ → List Command → Option Bytes → Ending
  unfolding ended
  run_opened (script, receive) commands (some e) = fatal (not_opened e)
  run_opened (script, receive) commands none =
      ended (execute_script_with_timeout (env_of receive) script o.in_time commands o.world)
        (execute_script (env_of receive) commands o.world).1

  -- Both modes, with the timeouts and the commands.
  pub run_commands : Bytes → Serial → ℤ × ℤ → List Command → Ending
  unfolding run_dry run_opened mode_of
  run_commands dry_run serial timeouts commands =
      if str_eq dry_run []
      then run_opened timeouts commands (o.open_error serial.device (mode_of serial))
      else run_dry commands (o.read_file dry_run)

  run_parsed : Bytes → Config → ℤ × ℤ → Result Error (List Command) → Ending
  unfolding run_commands
  run_parsed dry_run config timeouts (err e) = fatal (bad_script e)
  run_parsed dry_run config timeouts (ok commands) =
      run_commands dry_run config.serial timeouts commands

  run_selected : Bytes → Config → ℤ × ℤ → Result Error (List NamedScript) → Ending
  unfolding run_parsed
  run_selected dry_run config timeouts (err e) = fatal (bad_selection e)
  run_selected dry_run config timeouts (ok scripts) =
      run_parsed dry_run config timeouts (all_commands config scripts [])

  run_timed : Flags → Config → Result Error (ℤ × ℤ) → Ending
  unfolding run_selected
  run_timed flags config (err e) = fatal (bad_timeouts e)
  run_timed flags config (ok timeouts) =
      run_selected flags.dry_run config timeouts (select_scripts config flags.script_names)

  run_config : Flags → Option Config → Ending
  unfolding run_timed
  run_config flags none = fatal config_not_parsed
  run_config flags (some config) =
      run_timed flags config (parse_timeouts o.parse_duration config.timeout)

  unfoldable pub main : Flags → Ending
  unfolding run_config
  main flags =
      if str_eq flags.config_file []
      then usage
      else run_config flags (o.parse_config flags.config_file)

-- ===== src/Examples/Runs.antt =====
-- Runs of try commands, whole scripts and dry runs of cmd/serial_expect/main.go.
use mqtt_home_automation.Base.{
  List, ◌≤◌, ◌+◌, ◌≢◌, arith, ◌≡◌, ◌↔◌, ◌⊎◌, refl, Bool, true, false, [], ◌∷◌, ◌++◌, none, some,
  All,
}
use mqtt_home_automation.Base.Result.{ok}
use mqtt_home_automation.Text.{Bytes, codes, contains, split, str_eq, to_lower}
use mqtt_home_automation.Maps.{GoMap, lookup}
use mqtt_home_automation.Serial.Config.{Command, Config, try, send, NamedScript, TryBlock}
use mqtt_home_automation.Serial.Errors.{Error, receive_timeout}
use mqtt_home_automation.Serial.Script.{parse_script}
use mqtt_home_automation.Serial.Script.Print.{IsPlain}
use mqtt_home_automation.Serial.Script.Accepted.{parse_script-IsPlain}
use mqtt_home_automation.Serial.Pattern.{case_sensitive, parse_expect_pattern}
use mqtt_home_automation.Serial.Port.{
  World, Event, recv, elapsed, Outcome, done, waiting, failed, Env,
}
use mqtt_home_automation.Serial.Expect.{handle_expect}
use mqtt_home_automation.Serial.Try.{ended, run_main, run_except, handle_try}
use mqtt_home_automation.Serial.Try.Retries.{Runs, attempt, SecondSucceeds, handle_try_done}
use mqtt_home_automation.Serial.Execute.{execute_script}
use mqtt_home_automation.Serial.Port.Timers.{expiries}
use mqtt_home_automation.Serial.Execute.Ends.{IsTimed, all_timers, execute_script_ends}
use mqtt_home_automation.Serial.Execute.Order.{StoppedAt, execute_script_stops}
use mqtt_home_automation.Base.Int.{pos}
use mqtt_home_automation.Serial.Select.{parse_try_block}
use mqtt_home_automation.Serial.DryRun.{Dry, execute_dry_run}
use mqtt_home_automation.Examples.Ports.{
  bench, world, script_text, script, parsed, chat, late, after_late,
}

abbrev main_script : NamedScript
main_script = record { name = codes "main"; content = script_text }

abbrev except_script : NamedScript
except_script = record { name = codes "undo"; content = codes "send 'u'" }

abbrev scripts : GoMap NamedScript
scripts = (codes "main", main_script) ∷ (codes "undo", except_script) ∷ []

abbrev block : Bytes → Bool → TryBlock
block except retry = record {
  name = codes "t";
  script = codes "main";
  except = except;
  retry = retry;
}

finds_main : lookup (codes "main") scripts ≡ some main_script
unfolding lookup str_eq
finds_main = refl

finds_except : lookup (codes "undo") scripts ≡ some except_script
unfolding lookup str_eq
finds_except = refl

undo_parsed : parse_script except_script.content ≡ ok (send (codes "'u'") ∷ [])
unfolding parse_script
undo_parsed = refl

abbrev runs_main : (except : Bytes) (retry : Bool) → Runs (block except retry) scripts script
runs_main except retry = record { script = main_script; found = finds_main; parsed = parsed }

abbrev late_error : Error
late_error = receive_timeout (codes "'LOG'")

-- The first attempt comes too early.
abbrev second_chance : World
second_chance = world (elapsed ∷ chat)

handle_try_done_example : ((handle_try bench (block [] true) scripts second_chance).0 ≡ done) ↔ (
    ((attempt bench (block [] true) scripts script second_chance).0 ≡ ended none)
    ⊎ SecondSucceeds bench (block [] true) scripts script second_chance)
handle_try_done_example =
    handle_try_done bench (block [] true) scripts script second_chance (runs_main [] true)

-- So the command succeeds.
second_succeeds : (handle_try bench (block [] true) scripts second_chance).0 ≡ done
unfolding handle_try lookup str_eq parse_script mqtt_home_automation.Serial.Try.run_attempts
    run_main mqtt_home_automation.Serial.Try.run_sub mqtt_home_automation.Serial.Port.handle_send
    handle_expect parse_expect_pattern mqtt_home_automation.Serial.Pattern.byte_at
    mqtt_home_automation.Serial.Pattern.check_match contains to_lower
    mqtt_home_automation.Serial.Pattern.slice
second_succeeds = refl

no_except : str_eq [] [] ≡ true
unfolding str_eq
no_except = refl

abbrev undone : World
undone = record after_late {
  tx = after_late.tx ++ codes "u\r" ∷ [];
  handed = after_late.handed ++ codes "u\r" ∷ [];
}

some_except : str_eq (codes "undo") [] ≡ false
unfolding str_eq
some_except = refl

runs_undo : run_except bench (send (codes "'u'") ∷ []) after_late ≡ (done, undone)
unfolding run_except mqtt_home_automation.Serial.Try.run_sub
    mqtt_home_automation.Serial.Port.handle_send mqtt_home_automation.Serial.Pattern.byte_at
    mqtt_home_automation.Serial.Pattern.slice
runs_undo = refl

-- A try block whose script monitors the port for a number of lines.
abbrev watching : Config
watching = record {
  serial = record { device = codes "/dev/ttyS0"; speed = 9600; parity = false; bits = 8 };
  timeout = record { script = []; receive = [] };
  scripts = record { name = codes "main"; content = codes "monitor 30" } ∷ [];
  tries = block [] false ∷ [];
}

abbrev watch : List Command
watch =
    try (codes "t") (block [] false)
      ((codes "main", record { name = codes "main"; content = codes "monitor 30" }) ∷ [])
    ∷ []

watch_parsed : parse_try_block watching (codes "t") ≡ ok watch
unfolding parse_try_block mqtt_home_automation.Serial.Select.find_try str_eq
    mqtt_home_automation.Serial.Select.named_scripts mqtt_home_automation.Maps.insert
watch_parsed = refl

-- A script stops at the command that fails.
abbrev stopped : World
stopped = record after_late { tx = codes "ls\r" ∷ []; handed = codes "ls\r" ∷ [] }

stops_late : execute_script bench script late ≡ (failed late_error, stopped)
unfolding execute_script mqtt_home_automation.Serial.Execute.run_command
    mqtt_home_automation.Serial.Port.handle_send handle_expect parse_expect_pattern
    mqtt_home_automation.Serial.Pattern.byte_at mqtt_home_automation.Serial.Pattern.slice
stops_late = refl

execute_script_stops_example : StoppedAt bench script late_error late stopped
execute_script_stops_example = execute_script_stops bench script late_error late stopped stops_late

abbrev after_chat : World
after_chat = record {
  events = recv (codes "!") ∷ elapsed ∷ [];
  write_results = [];
  tx = codes "ls\r" ∷ codes "x\n" ∷ [];
  handed = codes "ls\r" ∷ codes "x\n" ∷ [];
  shown = [];
  timers = pos 30 ∷ [];
}

runs_chat : execute_script bench script (world chat) ≡ (done, after_chat)
unfolding execute_script mqtt_home_automation.Serial.Execute.run_command
    mqtt_home_automation.Serial.Port.handle_send handle_expect parse_expect_pattern
    mqtt_home_automation.Serial.Pattern.byte_at mqtt_home_automation.Serial.Pattern.check_match
    contains to_lower mqtt_home_automation.Serial.Pattern.slice
runs_chat = refl

plain : All IsPlain script
plain = parse_script-IsPlain script_text script parsed

abbrev pub log_file : Bytes
log_file = codes "hello\nthe log\nend"

abbrev pub dry : Dry
dry = record {
  line_index = 2;
  tx = codes "ls\r" ∷ codes "x\n" ∷ [];
  rx = codes "hello" ∷ codes "the log" ∷ [];
}

runs_dry : execute_dry_run bench.compile log_file script ≡ ok dry
unfolding execute_dry_run mqtt_home_automation.Serial.DryRun.dry_commands
    mqtt_home_automation.Serial.DryRun.dry_expect parse_expect_pattern
    mqtt_home_automation.Serial.Pattern.byte_at mqtt_home_automation.Serial.DryRun.search_lines
    mqtt_home_automation.Serial.DryRun.dry_send split
    mqtt_home_automation.Serial.Pattern.check_dry_run_match contains to_lower
    mqtt_home_automation.Serial.Pattern.slice mqtt_home_automation.Serial.Pattern.format_send_value
runs_dry = refl

-- Six timers are enough for two attempts at three commands.
abbrev patient : World
patient = world (elapsed ∷ elapsed ∷ recv (codes "x") ∷ elapsed ∷ elapsed ∷ elapsed ∷ elapsed ∷ [])

abbrev tries : List Command
tries = try (codes "t") (block [] true) scripts ∷ []

tries-IsTimed : All (IsTimed bench) tries
unfolding lookup str_eq parse_script
tries-IsTimed = (((tt, (tt, (tt, tt))), tt), tt)

enough : all_timers tries ≤ expiries patient.events
unfolding lookup str_eq parse_script
enough = omega arith

execute_script_ends_example :
    ((execute_script bench tries patient).0 ≢ waiting)
    × (expiries patient.events
        ≤ all_timers tries + expiries (execute_script bench tries patient).1.events)
execute_script_ends_example = execute_script_ends bench tries patient tries-IsTimed enough

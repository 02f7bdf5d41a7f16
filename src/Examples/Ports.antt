-- ===== src/Examples/Ports.antt =====
-- Runs of scripts against a serial port, and dry runs, of cmd/serial_expect/main.go.
use mqtt_home_automation.Base.{
  ◌≤◌, ◌≡◌, ◌↔◌, refl, false, List, [], ◌∷◌, ◌++◌, none, some, map, arith, inr,
}
use mqtt_home_automation.Base.Int.{pos, negsuc}
use mqtt_home_automation.Base.Result.{ok}
use mqtt_home_automation.Text.{Bytes, codes, contains, split, str_eq, to_lower}
use mqtt_home_automation.Text.Number.{atoi}
use mqtt_home_automation.Serial.Config.{Command, send, expect}
use mqtt_home_automation.Serial.Errors.{receive_timeout}
use mqtt_home_automation.Serial.Script.{parse_script}
use mqtt_home_automation.Serial.Pattern.{case_sensitive, parse_expect_pattern}
use mqtt_home_automation.Serial.Port.{
  World, Event, recv, elapsed, Outcome, done, waiting, failed, Env,
}
use mqtt_home_automation.Serial.Port.Reader.{byte, read_serial}
use mqtt_home_automation.Serial.Expect.{handle_expect}
use mqtt_home_automation.Serial.Expect.Stream.{FirstMatch, handle_expect_first}
use mqtt_home_automation.Serial.Monitor.{take_char, monitor_loop, handle_monitor}
use mqtt_home_automation.Serial.Monitor.Counts.{newlines, handle_monitor_counts}
use mqtt_home_automation.Serial.Monitor.Duration.{handle_monitor_times}
use mqtt_home_automation.Serial.Try.{ended, run_main, run_except, handle_try}
use mqtt_home_automation.Serial.Try.Sends.{handed-run_main}

-- Regular expressions without operators, and no durations.
abbrev pub bench : Env
bench = record {
  compile = λ p. some (λ s. contains s p);
  parse_duration = λ s. none;
  receive_timeout = pos 30;
}

abbrev pub world : List Event → World
world events = record {
  events = events;
  write_results = [];
  tx = [];
  handed = [];
  shown = [];
  timers = [];
}

abbrev pub texts : List Bytes
texts = codes "L" ∷ codes "o" ∷ codes "g" ∷ codes "!" ∷ []

abbrev pub chat : List Event
chat = map recv texts ++ elapsed ∷ []

-- The script that the runs below are of, and what it sends.
abbrev pub script_text : Bytes
script_text = codes "send 'ls'\nexpect 'LOG'\nsend \"x\\n\""

abbrev pub script : List Command
script = send (codes "'ls'") ∷ expect (codes "'LOG'") ∷ send (codes "\"x\\n\"") ∷ []

pub parsed : parse_script script_text ≡ ok script
unfolding parse_script
parsed = refl

abbrev after_log : World
after_log = record {
  events = recv (codes "!") ∷ elapsed ∷ [];
  write_results = [];
  tx = [];
  handed = [];
  shown = [];
  timers = pos 30 ∷ [];
}

expects : handle_expect bench (codes "\"Log\"") (world chat) ≡ (done, after_log)
unfolding handle_expect parse_expect_pattern mqtt_home_automation.Serial.Pattern.byte_at
    mqtt_home_automation.Serial.Pattern.check_match mqtt_home_automation.Text.has_prefix
    mqtt_home_automation.Serial.Pattern.slice mqtt_home_automation.Text.trim_space
    mqtt_home_automation.Serial.Expect.next_line
expects = refl

log_pattern :
    parse_expect_pattern bench.compile (codes "\"Log\"") ≡ ok (case_sensitive (codes "Log"))
unfolding parse_expect_pattern mqtt_home_automation.Serial.Pattern.byte_at
    mqtt_home_automation.Serial.Pattern.slice
log_pattern = refl

handle_expect_first_example :
    FirstMatch (case_sensitive (codes "Log")) chat (recv (codes "!") ∷ elapsed ∷ []) [] []
handle_expect_first_example =
    handle_expect_first bench (codes "\"Log\"") (case_sensitive (codes "Log")) (world chat)
      after_log log_pattern expects

abbrev two_lines : World
two_lines = world (recv (codes "a") ∷ recv (codes "\n") ∷ elapsed ∷ recv (codes "\n") ∷ [])

two : atoi (codes "2") ≡ some (pos 2)
unfolding atoi
two = refl

minus_two : atoi (codes "-2") ≡ some (negsuc 1)
unfolding atoi
minus_two = refl

not_empty : str_eq (codes "2") [] ≡ false
unfolding str_eq
not_empty = refl

handle_monitor_counts_example :
    ((((handle_monitor bench (codes "2") two_lines).0 ≡ done) ↔ (2 ≤ newlines two_lines.events)))
    × ((handle_monitor bench (codes "2") two_lines).1.timers ≡ two_lines.timers)
handle_monitor_counts_example =
    handle_monitor_counts bench (codes "2") 1 two_lines not_empty refl two

two_come : (handle_monitor bench (codes "2") two_lines).0 ≡ done
unfolding handle_monitor str_eq atoi monitor_loop take_char
two_come = refl

minus_not_empty : str_eq (codes "-2") [] ≡ false
unfolding str_eq
minus_not_empty = refl

-- A monitor command of five seconds.
abbrev timed : Env
timed = record bench { parse_duration = λ s. some (pos 5_000_000_000) }

abbrev one_line : World
one_line =
    world
      (map recv (read_serial (map byte (codes "a\r\nb")) []).0 ++ elapsed ∷ recv (codes "c") ∷ [])

five_not_empty : str_eq (codes "5s") [] ≡ false
unfolding str_eq
five_not_empty = refl

handle_monitor_times_example : handle_monitor timed (codes "5s") one_line ≡ (
  done,
  record one_line {
    events = recv (codes "c") ∷ [];
    shown = (read_serial (map byte (codes "a\r\nb")) []).1;
    timers = pos 5_000_000_000 ∷ [];
  },
)
handle_monitor_times_example =
    handle_monitor_times timed (codes "5s") (pos 5_000_000_000) (codes "a\r\nb")
      (recv (codes "c") ∷ []) one_line (inr (five_not_empty, refl))
      (omega arith, (omega arith, (omega arith, (omega arith, tt)))) refl

-- No more than the line before the newline is logged.
logs_one_line : (read_serial (map byte (codes "a\r\nb")) []).1 ≡ codes "a" ∷ []
unfolding read_serial mqtt_home_automation.Serial.Port.Reader.trim_line_end
logs_one_line = refl

-- No text comes before the timeout: the expect command fails, and the rest is sent all the same.
abbrev pub late : World
late = world (elapsed ∷ [])

abbrev pub after_late : World
after_late = record {
  events = [];
  write_results = [];
  tx = codes "ls\r" ∷ codes "x\n" ∷ [];
  handed = codes "ls\r" ∷ codes "x\n" ∷ [];
  shown = [];
  timers = pos 30 ∷ [];
}

pub runs_late :
    run_main bench script none late ≡ (ended (some (receive_timeout (codes "'LOG'"))), after_late)
unfolding run_main mqtt_home_automation.Serial.Try.run_sub
    mqtt_home_automation.Serial.Port.handle_send handle_expect parse_expect_pattern
    mqtt_home_automation.Serial.Pattern.byte_at mqtt_home_automation.Serial.Pattern.slice
runs_late = refl

-- The first write fails as well: its data is handed to the port, but does not count as written.
abbrev broken : World
broken = record late { write_results = some (codes "gone") ∷ [] }

abbrev after_broken : World
after_broken = record after_late { tx = codes "x\n" ∷ [] }

runs_broken :
    run_main bench script none broken
    ≡ (ended (some (receive_timeout (codes "'LOG'"))), after_broken)
unfolding run_main mqtt_home_automation.Serial.Try.run_sub
    mqtt_home_automation.Serial.Port.handle_send handle_expect parse_expect_pattern
    mqtt_home_automation.Serial.Pattern.byte_at mqtt_home_automation.Serial.Pattern.slice
runs_broken = refl

handed-run_main_example : after_broken.handed ≡ codes "ls\r" ∷ codes "x\n" ∷ []
unfolding mqtt_home_automation.Serial.Pattern.format_send_value
    mqtt_home_automation.Serial.Pattern.byte_at mqtt_home_automation.Serial.Pattern.slice
handed-run_main_example =
    handed-run_main bench script none (some (receive_timeout (codes "'LOG'"))) broken after_broken
      runs_broken

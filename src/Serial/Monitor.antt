-- ===== src/Serial/Monitor.antt =====
-- handleMonitor of cmd/serial_expect/main.go.
pub mod Lines
pub mod Duration
pub mod Counts
pub mod Ends
use mqtt_home_automation.Base.{
  ℕ, ◌+◌, ◌*◌, ◌&&◌, List, [], ◌∷◌, ◌++◌, Option, none, some, leb, if◌then◌else◌,
}
use mqtt_home_automation.Base.Int.{ℤ, pos, to_ℕ, is_positive, is_zero}
use mqtt_home_automation.Text.{Bytes, codes, str_eq}
use mqtt_home_automation.Text.Number.{atoi}
use mqtt_home_automation.Serial.Errors.{invalid_monitor_parameter}
use mqtt_home_automation.Serial.Pattern.{byte_at}
use mqtt_home_automation.Serial.Port.{
  Event, recv, elapsed, World, Outcome, done, waiting, failed, Env,
}
use mqtt_home_automation.Serial.Port.Reader.{trim_line_end}

-- 24 * time.Hour
abbrev pub day : ℤ
day = pos (24 * 3600 * 1_000_000_000)

-- The limits of a monitor command: how long, and how many lines.
pub record Limits : Type 0 where
  pub monitor_duration : ℤ
  pub max_lines : ℤ

counted : Option ℤ → Option Limits
counted none = none
counted (some n) = some (record { monitor_duration = pos 0; max_lines = n })

timed : Option ℤ → Option Limits → Option Limits
timed none otherwise = otherwise
timed (some d) otherwise = some (record { monitor_duration = d; max_lines = pos 0 })

-- The parameter: nothing, a duration, or a count of lines.
pub parse_limits : Env → Bytes → Option Limits
unfolding counted timed
parse_limits env parameter =
    if str_eq parameter []
    then some (record { monitor_duration = day; max_lines = pos 0 })
    else timed (env.parse_duration parameter) (counted (atoi parameter))

pub record Watch : Type 0 where
  pub buffer : Bytes
  pub line_count : ℕ
  pub lines : List Bytes

-- A text from the channel: its first byte is kept, and a newline ends a line.
unfoldable pub take_char : Bytes → Watch → Watch
take_char char m =
    let buffer = m.buffer ++ byte_at char 0 ∷ [] in
    if str_eq char (codes "\n")
    then record {
      buffer = [];
      line_count = m.line_count + 1;
      lines = m.lines ++ trim_line_end buffer ∷ [];
    }
    else record m { buffer = buffer }

-- The loop of selects. The timer is armed, and can fire, only if max_lines is 0.
unfoldable pub monitor_loop : ℤ → List Event → Watch → Outcome × List Event × Watch
monitor_loop max_lines [] m = (waiting, [], m)
monitor_loop max_lines (elapsed ∷ events) m =
    let rest = monitor_loop max_lines events m in
    if is_zero max_lines then (done, events, m) else rest
monitor_loop max_lines (recv char ∷ events) m =
    let m' = take_char char m in
    let rest = monitor_loop max_lines events m' in
    if str_eq char (codes "\n") && (is_positive max_lines && leb (to_ℕ max_lines) m'.line_count)
    then (done, events, m')
    else rest

monitor_with : Bytes → Option Limits → World → Outcome × World
monitor_with parameter none w = (failed (invalid_monitor_parameter parameter), w)
monitor_with parameter (some limits) w =
    let (outcome, events, m) =
      monitor_loop limits.max_lines w.events (record { buffer = []; line_count = 0; lines = [] }) in
    (
      outcome,
      record w {
        events = events;
        shown = w.shown ++ m.lines;
        timers =
            (if is_zero limits.max_lines
              then w.timers ++ limits.monitor_duration ∷ []
              else w.timers);
      },
    )

unfoldable pub handle_monitor : Env → Bytes → World → Outcome × World
unfolding parse_limits monitor_with
handle_monitor env parameter w = monitor_with parameter (parse_limits env parameter) w

-- ===== src/Runner/System.antt =====
-- getSystemUptime, getSystemLoad, getMemoryInfo, getLastReloadTime, homeHandler and apiStatsHandler
-- of cmd/command_runner_server/main.go. The machine is a parameter: its files, the program `uptime`,
-- the floating-point numbers and the printing of times.
pub mod Memory
use mqtt_home_automation.Base.{
  ℕ, ◌+◌, ◌*◌, ◌-◌, Bool, not, ◌&&◌, List, [], ◌∷◌, ◌++◌, Option, none, some, length, drop,
  if◌then◌else◌,
}
use mqtt_home_automation.Base.Int.{ℤ, minus, quotient}
use mqtt_home_automation.Base.Result.{Result, ok, err, ◌>>=◌}
use mqtt_home_automation.Text.{
  Bytes, codes, str_eq, has_prefix, trim_space, split, fields, index, itoa,
}
use mqtt_home_automation.Text.Number.{atoi, print_int}
use mqtt_home_automation.Runner.State.{State, Button}
use mqtt_home_automation.Runner.Duration.{Clock, format_duration}
use mqtt_home_automation.Runner.Output.{get_latest_output}
use mqtt_home_automation.Runner.Pages.{current_framework, template_name}

pub record Machine : Type 0 where
  -- runtime.GOOS == "linux"
  pub is_linux : Bool
  pub read_file : Bytes → Option Bytes
  -- the output of the program `uptime`
  pub uptime : Option Bytes
  -- int64 of what strconv.ParseFloat reads
  pub whole_seconds : Bytes → Option ℕ
  -- %.1f of float64(used) / float64(total) * 100
  pub percent : ℤ → ℤ → Bytes
  pub clock : Clock
  pub format_time : ℕ → Bytes
  -- runtime.Version()
  pub go_version : Bytes

pub data Panic : Type 0 where
  index_out_of_range : Panic

file_on : Machine → Bytes → Option Bytes
file_on m name = if m.is_linux then m.read_file name else none

module _ (m : Machine) where
  -- The text, where there is none the text of the second program.
  uptime_output : Option Bytes → Bytes
  uptime_output none = codes "Unable to determine system uptime"
  uptime_output (some output) = trim_space output

  uptime_parsed : Option ℕ → Bytes
  uptime_parsed none = uptime_output m.uptime
  uptime_parsed (some seconds) = format_duration m.clock (seconds * 1_000_000_000)

  uptime_fields : List Bytes → Bytes
  uptime_fields [] = uptime_output m.uptime
  uptime_fields (p ∷ ps) = uptime_parsed (m.whole_seconds p)

  uptime_read : Option Bytes → Bytes
  uptime_read none = uptime_output m.uptime
  uptime_read (some text) = uptime_fields (fields text)

  -- The product of the seconds stays below 2^63 for 292 years.
  get_system_uptime : Bytes
  get_system_uptime = uptime_read (file_on m (codes "/proc/uptime"))

  load_at : Bytes → Option ℕ → Bytes
  load_at output none = codes "Unable to determine system load"
  load_at output (some idx) = trim_space (drop (idx + 13) output)

  load_output : Option Bytes → Bytes
  load_output none = codes "Unable to determine system load"
  load_output (some output) = load_at output (index output (codes "load average:"))

  load_fields : List Bytes → Bytes
  load_fields (a ∷ b ∷ c ∷ ps) =
      a ++ (codes " " ++ (b ++ (codes " " ++ (c ++ codes " (1m 5m 15m)"))))
  load_fields parts = load_output m.uptime

  load_read : Option Bytes → Bytes
  load_read none = load_output m.uptime
  load_read (some text) = load_fields (fields text)

  get_system_load : Bytes
  get_system_load = load_read (file_on m (codes "/proc/loadavg"))

-- parts[1]
second : List Bytes → Result Panic Bytes
second (a ∷ b ∷ ps) = ok b
second parts = err index_out_of_range

-- A round of the loop over the lines, on memTotal and memAvailable.
take_line : Bytes → Bytes × Bytes → Result Panic (Bytes × Bytes)
take_line line (total, available) =
    if has_prefix line (codes "MemTotal:")
    then (do value ← second (fields line); ok (value, available))
    else if has_prefix line (codes "MemAvailable:")
    then (do value ← second (fields line); ok (total, value))
    else ok (total, available)

take_lines : List Bytes → Bytes × Bytes → Result Panic (Bytes × Bytes)
take_lines [] found = ok found
take_lines (line ∷ lines) found = do found' ← take_line line found; take_lines lines found'

unknown_memory : Bytes
unknown_memory = codes "Unable to determine memory usage"

module _ (m : Machine) where
  memory_of : Option ℤ → Option ℤ → Bytes
  memory_of (some total) (some available) =
      let used = minus total available in
      m.percent used total
      ++ (codes "% used ("
          ++ (print_int (quotient used 1024)
              ++ (codes " MB / " ++ (print_int (quotient total 1024) ++ codes " MB)"))))
  memory_of total available = unknown_memory

  memory_found : Bytes × Bytes → Bytes
  memory_found (total, available) =
      if not (str_eq total []) && not (str_eq available [])
      then memory_of (atoi total) (atoi available)
      else unknown_memory

  memory_read : Option Bytes → Result Panic Bytes
  memory_read none = ok unknown_memory
  memory_read (some text) = do
    found ← take_lines (split text b'\n') ([], [])
    ok (memory_found found)

  -- An index out of range panics.
  get_memory_info : Result Panic Bytes
  get_memory_info = memory_read (file_on m (codes "/proc/meminfo"))

  reload_time : Option ℕ → Bytes
  reload_time none = codes "Never"
  reload_time (some t) = m.format_time t

  get_last_reload_time : State → Bytes
  get_last_reload_time s = reload_time s.last_reload_time

  -- The answer of apiStatsHandler to a request at the time `now`, of a server that started at
  -- `start`; the texts are not escaped.
  pub api_stats_handler : ℕ → ℕ → State → Result Panic Bytes
  api_stats_handler start now s = do
    memory ← get_memory_info
    ok (
        codes "{\n\t\t\"server_uptime\":\""
        ++ (format_duration m.clock (now - start)
            ++ (codes "\",\n\t\t\"system_uptime\":\""
                ++ (get_system_uptime m
                    ++ (codes "\",\n\t\t\"system_load\":\""
                        ++ (get_system_load m
                            ++ (codes "\",\n\t\t\"memory_info\":\""
                                ++ (memory
                                    ++ (codes "\",\n\t\t\"last_reload\":\""
                                        ++ (get_last_reload_time s
                                            ++ (codes "\",\n\t\t\"button_count\":"
                                                ++ (itoa (length s.config.buttons)
                                                    ++ (codes ",\n\t\t\"go_version\":\""
                                                        ++ (m.go_version
                                                            ++ (codes "\",\n\t\t\"current_time\":\""
                                                            ++ (m.format_time now
                                                            ++ (codes "\",\n\t\t\"ui_framework\":\""
                                                            ++ (s.config.server.ui_framework
                                                            ++ codes "\"\n\t}"))))))))))))))))))

-- What the home page is rendered with.
pub record HomeData : Type 0 where
  pub buttons : List Button
  pub output : Bytes
  pub current_time : Bytes
  pub server_uptime : Bytes
  pub system_uptime : Bytes
  pub system_load : Bytes
  pub memory_info : Bytes
  pub last_reload : Bytes
  pub config_file : Bytes
  pub button_count : ℕ
  pub go_version : Bytes
  pub ui_framework : Bytes

-- homeHandler: the template and its data.
pub home_handler : Machine → ℕ → ℕ → State → Option Bytes → Result Panic (Bytes × HomeData)
home_handler m start now s cookie = do
  memory ← get_memory_info m
  ok (
    template_name (current_framework s.config cookie),
    record {
      buttons = s.config.buttons;
      output = get_latest_output s;
      current_time = m.format_time now;
      server_uptime = format_duration m.clock (now - start);
      system_uptime = get_system_uptime m;
      system_load = get_system_load m;
      memory_info = memory;
      last_reload = get_last_reload_time m s;
      config_file = s.config_file;
      button_count = length s.config.buttons;
      go_version = m.go_version;
      ui_framework = current_framework s.config cookie;
    },
  )

-- xmlConfigHandler: the status code and the text, of what reading the configuration file gives.
xml_config_handler : Result Bytes Bytes → ℕ × Bytes
xml_config_handler (err e) = (500, codes "Error reading config file: " ++ e)
xml_config_handler (ok data_read) = (200, data_read)

api_time_handler : Machine → ℕ → Bytes
api_time_handler m now = m.format_time now

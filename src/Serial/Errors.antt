-- ===== src/Serial/Errors.antt =====
-- The errors of cmd/serial_expect/main.go: a constructor for each message, with what it prints.
use mqtt_home_automation.Base.{ℕ}
use mqtt_home_automation.Text.{Bytes}

pub data Error : Type 0 where
  -- parseScript: the number of the line, and the line
  invalid_command : ℕ → Bytes → Error
  -- parseExpectPattern
  pattern_too_short invalid_pattern_format invalid_regex : Error
  -- handleExpect
  invalid_expect_pattern : Bytes → Error → Error
  receive_timeout : Bytes → Error
  -- handleSend: what the port said
  send_failed : Bytes → Error
  -- handleMonitor
  invalid_monitor_parameter : Bytes → Error
  -- handleTry: the script, the block
  script_not_found except_not_found : Bytes → Bytes → Error
  parse_failed parse_except_failed : Bytes → Error → Error
  try_failed : Bytes → Error → Error
  -- selectScripts and parseTryBlock
  unnamed_try no_scripts : Error
  missing_script missing_except : Bytes → Bytes → Error
  not_found try_not_found : Bytes → Error
  -- executeDryRun
  not_in_input : Bytes → Error
  -- parseTimeouts
  invalid_script_timeout invalid_receive_timeout : Bytes → Error

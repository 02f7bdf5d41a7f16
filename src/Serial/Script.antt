-- ===== src/Serial/Script.antt =====
-- parseScript of cmd/serial_expect/main.go.
pub mod Print
pub mod Faults
pub mod Accepted
use mqtt_home_automation.Base.{
  ℕ, ◌+◌, ◌≡◌, refl, Bool, true, false, List, [], ◌∷◌, ◌++◌, if◌then◌else◌,
}
use mqtt_home_automation.Base.Result.{Result, ok, err}
use mqtt_home_automation.Text.{Bytes, codes, str_eq, has_prefix, trim_prefix, trim_space, split}
use mqtt_home_automation.Serial.Config.{Command, send, expect, monitor}
use mqtt_home_automation.Serial.Errors.{Error, invalid_command}

abbrev send_word : Bytes
send_word = codes "send "

abbrev expect_word : Bytes
expect_word = codes "expect "

abbrev monitor_word : Bytes
monitor_word = codes "monitor "

-- What a round of the loop does with a trimmed line.
pub data Line : Type 0 where
  blank invalid : Line
  command : Command → Line

pub read_line : Bytes → Line
unfolding str_eq has_prefix trim_prefix
read_line line =
    if str_eq line []
    then blank
    else if has_prefix line send_word
    then command (send (trim_prefix line send_word))
    else if has_prefix line expect_word
    then command (expect (trim_prefix line expect_word))
    else if has_prefix line monitor_word
    then command (monitor (trim_prefix line monitor_word))
    else if str_eq line (codes "monitor")
    then command (monitor [])
    else invalid

-- for i, line := range lines
read_lines : ℕ → List Bytes → List Command → Result Error (List Command)
unfolding read_line
read_lines i [] commands = ok commands
read_lines i (raw ∷ lines) commands =
    let line = trim_space raw in
    elim (read_line line) [
      | blank ↦ read_lines (i + 1) lines commands
      | invalid ↦ err (invalid_command (i + 1) line)
      | command c ↦ read_lines (i + 1) lines (commands ++ c ∷ [])
    ]

unfoldable pub parse_script : Bytes → Result Error (List Command)
unfolding read_lines trim_space split
parse_script text = read_lines 0 (split (trim_space text) b'\n') []

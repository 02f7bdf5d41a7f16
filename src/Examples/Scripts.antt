-- ===== src/Examples/Scripts.antt =====
-- Scripts, patterns and selections of cmd/serial_expect/main.go.
use mqtt_home_automation.Base.{
  ℕ, ◌+◌, ◌≡◌, refl, Bool, true, false, List, [], ◌∷◌, Option, none, some, map, All,
}
use mqtt_home_automation.Base.Int.{pos}
use mqtt_home_automation.Base.Result.{ok, err}
use mqtt_home_automation.Text.{Bytes, codes, contains, trim_space, split}
use mqtt_home_automation.Serial.Config.{
  Config, Command, send, expect, monitor, NamedScript, TryBlock,
}
use mqtt_home_automation.Serial.Errors.{invalid_command}
use mqtt_home_automation.Serial.Script.{parse_script}
use mqtt_home_automation.Serial.Script.Print.{print_script, parse_script-print_script}
use mqtt_home_automation.Serial.Script.Accepted.{parse_script-IsPlain}
use mqtt_home_automation.Serial.Script.Faults.{IsFirstFault, lines_of, parse_script_fault}
use mqtt_home_automation.Serial.Pattern.{
  case_insensitive, parse_expect_pattern, format_send_value, byte_at, slice,
}
use mqtt_home_automation.Serial.Pattern.Quotes.{
  print_pattern, IsCompiled, print_pattern-parse_expect_pattern,
}
use mqtt_home_automation.Serial.Port.{World, Env}
use mqtt_home_automation.Serial.Select.{select_scripts, parse_try_block, find_try}
use mqtt_home_automation.Serial.Select.Names.{IsFrom, script_name, select_scripts_names}

abbrev login_text : Bytes
login_text = codes "\n  send 'ls'\n\n expect \"$ \"\nmonitor\n"

abbrev login : List Command
login = send (codes "'ls'") ∷ expect (codes "\"$ \"") ∷ monitor [] ∷ []

reads_script : parse_script login_text ≡ ok login
unfolding parse_script
reads_script = refl

-- The first line of the text is not line 1: the white space in front of it is cut first.
counts_from_first_command :
    parse_script (codes "\n\nsend 'a'\nsend") ≡ err (invalid_command 2 (codes "send"))
unfolding parse_script
counts_from_first_command = refl

sends_return : format_send_value (codes "'ls -l'") ≡ codes "ls -l\r"
unfolding format_send_value byte_at slice
sends_return = refl

sends_escapes : format_send_value (codes "\"a\\r\\n\"") ≡ codes "a\r\n"
unfolding format_send_value byte_at slice
sends_escapes = refl

parse_script-print_script_example : parse_script (print_script login) ≡ ok login
parse_script-print_script_example =
    parse_script-print_script login (parse_script-IsPlain login_text login reads_script)

-- A word is spelt wrong on the third line.
abbrev faulty : Bytes
faulty = codes "send 'a'\n\n sned 'b' \nexpect"

faulty_refused : parse_script faulty ≡ err (invalid_command 3 (codes "sned 'b'"))
unfolding parse_script
faulty_refused = refl

parse_script_fault_example :
    (n : ℕ) × (line : Bytes) × (invalid_command 3 (codes "sned 'b'") ≡ invalid_command (n + 1) line)
    × IsFirstFault (lines_of faulty) n line
parse_script_fault_example =
    parse_script_fault faulty (invalid_command 3 (codes "sned 'b'")) faulty_refused

-- Regular expressions without operators.
abbrev literal : Bytes → Option (Bytes → Bool)
literal p = some (λ s. contains s p)

abbrev prompt : Bytes
prompt = codes "login:"

quoted_prompt : parse_expect_pattern literal (codes "'login:'") ≡ ok (case_insensitive prompt)
unfolding parse_expect_pattern byte_at slice
quoted_prompt = refl

print_pattern-parse_expect_pattern_example :
    (codes "'login:'" ≡ print_pattern (case_insensitive prompt))
    × IsCompiled literal (case_insensitive prompt)
print_pattern-parse_expect_pattern_example =
    print_pattern-parse_expect_pattern literal (codes "'login:'") (case_insensitive prompt)
      quoted_prompt

abbrev setup : NamedScript
setup = record { name = codes "setup"; content = codes "send 'a'" }

abbrev unnamed : NamedScript
unnamed = record { name = []; content = codes "send 'b'" }

-- A block that names an unnamed script by the name that the selection makes up for it.
abbrev block : TryBlock
block = record { name = codes "again"; script = codes "script2"; except = []; retry = true }

abbrev pub config : List NamedScript → List TryBlock → Config
config scripts tries = record {
  serial = record { device = codes "/dev/ttyS0"; speed = 9600; parity = false; bits = 8 };
  timeout = record { script = []; receive = [] };
  scripts = scripts;
  tries = tries;
}

abbrev both : Config
both = config (setup ∷ unnamed ∷ []) (block ∷ [])

selects_both :
    select_scripts both (codes "setup" ∷ codes "script2" ∷ codes "setup" ∷ [])
    ≡ ok (setup ∷ record unnamed { name = codes "script2" } ∷ setup ∷ [])
unfolding select_scripts mqtt_home_automation.Maps.lookup mqtt_home_automation.Maps.insert
    mqtt_home_automation.Serial.Select.with_name
selects_both = refl

select_scripts_names_example :
    (map script_name (setup ∷ record unnamed { name = codes "script2" } ∷ setup ∷ [])
      ≡ codes "setup" ∷ codes "script2" ∷ codes "setup" ∷ [])
    × All (IsFrom both) (setup ∷ record unnamed { name = codes "script2" } ∷ setup ∷ [])
select_scripts_names_example =
    select_scripts_names both (codes "setup" ∷ codes "script2" ∷ codes "setup" ∷ [])
      (setup ∷ record unnamed { name = codes "script2" } ∷ setup ∷ []) (λ e. cc) selects_both

finds_block : find_try (codes "again") both.tries ≡ some block
unfolding find_try mqtt_home_automation.Text.str_eq
finds_block = refl

abbrev bench : Env
bench = record { compile = literal; parse_duration = λ s. none; receive_timeout = pos 30 }

abbrev quiet : World
quiet = record { events = []; write_results = []; tx = []; handed = []; shown = []; timers = [] }

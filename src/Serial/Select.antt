-- ===== src/Serial/Select.antt =====
-- Which scripts run: selectScripts, parseTryBlock, parseTimeouts and the loop of main that parses
-- the selected scripts, in cmd/serial_expect/main.go.
pub mod Names
pub mod Tries
use mqtt_home_automation.Base.{
  ℕ, zero, suc, ◌+◌, ◌*◌, ◌≡◌, refl, Bool, List, [], ◌∷◌, ◌++◌, Option, none, some, if◌then◌else◌,
}
use mqtt_home_automation.Base.Int.{ℤ, pos}
use mqtt_home_automation.Base.Result.{Result, ok, err, ◌>>=◌}
use mqtt_home_automation.Text.{Bytes, codes, str_eq, has_prefix, trim_prefix, itoa}
use mqtt_home_automation.Maps.{GoMap, lookup, insert}
use mqtt_home_automation.Serial.Config.{Config, NamedScript, TryBlock, Timeout, Command, try}
use mqtt_home_automation.Serial.Errors.{
  Error, unnamed_try, no_scripts, missing_script, missing_except, not_found, try_not_found,
  invalid_script_timeout, invalid_receive_timeout,
}
use mqtt_home_automation.Serial.Script.{parse_script}

abbrev pub marker : Bytes
marker = codes "__TRY_BLOCK__"

-- A try block as a virtual script.
abbrev pub virtual : TryBlock → NamedScript
virtual block = record { name = block.name; content = marker ++ block.name }

-- The default name of an unnamed script.
unfoldable pub with_name : ℕ → NamedScript → NamedScript
unfolding str_eq itoa
with_name i script =
    if str_eq script.name []
    then record script { name = codes "script" ++ itoa (i + 1) }
    else script

add_scripts : ℕ → List NamedScript → GoMap NamedScript → GoMap NamedScript
add_scripts i [] script_map = script_map
add_scripts i (s ∷ ss) script_map =
    add_scripts (i + 1) ss (insert (with_name i s).name (with_name i s) script_map)

-- The checks on a try block; the rest of the loop goes on with the map that has it.
check_except : TryBlock → GoMap NamedScript → Result Error (GoMap NamedScript)
check_except block script_map =
    if str_eq block.except []
    then ok (insert block.name (virtual block) script_map)
    else elim (lookup block.except script_map) [
      | none ↦ err (missing_except block.name block.except)
      | some s ↦ ok (insert block.name (virtual block) script_map)
    ]

add_try : TryBlock → GoMap NamedScript → Result Error (GoMap NamedScript)
unfolding check_except
add_try block script_map =
    if str_eq block.name [] then err unnamed_try else elim (lookup block.script script_map) [
      | none ↦ err (missing_script block.name block.script)
      | some s ↦ check_except block script_map
    ]

add_tries : List TryBlock → GoMap NamedScript → Result Error (GoMap NamedScript)
unfolding add_try
add_tries [] script_map = ok script_map
add_tries (t ∷ ts) script_map = add_try t script_map >>= add_tries ts

find_named : Bytes → Option NamedScript → Result Error NamedScript
find_named name none = err (not_found name)
find_named name (some s) = ok s

-- for _, requestedName := range scriptNames
pick : List Bytes → GoMap NamedScript → List NamedScript → Result Error (List NamedScript)
unfolding find_named
pick [] script_map selected = ok selected
pick (name ∷ names) script_map selected =
    find_named name (lookup name script_map) >>= λ s. pick names script_map (selected ++ s ∷ [])

-- The default: the first script, or the first try block.
first_of_config : Config → Option NamedScript
unfolding str_eq
first_of_config config = elim config.scripts [
  | s ∷ ss ↦ some (if str_eq s.name [] then record s { name = codes "script1" } else s)
  | [] ↦ elim config.tries [ t ∷ ts ↦ some (virtual t) | [] ↦ none ]
]

choose : Config → List Bytes → GoMap NamedScript → Result Error (List NamedScript)
unfolding pick first_of_config
choose config names [] = err no_scripts
choose config [] (e ∷ m) = elim (first_of_config config) [ some s ↦ ok (s ∷ []) | none ↦ ok [] ]
choose config (n ∷ ns) (e ∷ m) = pick (n ∷ ns) (e ∷ m) []

unfoldable pub select_scripts : Config → List Bytes → Result Error (List NamedScript)
unfolding add_scripts add_tries choose
select_scripts config script_names =
    add_tries config.tries (add_scripts 0 config.scripts []) >>= choose config script_names

-- The first try block of a name.
unfoldable pub find_try : Bytes → List TryBlock → Option TryBlock
find_try name [] = none
find_try name (t ∷ ts) = if str_eq t.name name then some t else find_try name ts

-- The scripts that a try block can name: unnamed ones are skipped.
unfoldable pub named_scripts : List NamedScript → GoMap NamedScript → GoMap NamedScript
named_scripts [] script_map = script_map
named_scripts (s ∷ ss) script_map =
    named_scripts ss (if str_eq s.name [] then script_map else insert s.name s script_map)

unfoldable pub try_command : Config → Bytes → Option TryBlock → Result Error (List Command)
try_command config name none = err (try_not_found name)
try_command config name (some block) = ok (try name block (named_scripts config.scripts []) ∷ [])

unfoldable pub parse_try_block : Config → Bytes → Result Error (List Command)
unfolding try_command
parse_try_block config name = try_command config name (find_try name config.tries)

-- What main parses a selected script as.
unfoldable pub parse_selected : Config → NamedScript → Result Error (List Command)
parse_selected config s =
    if has_prefix s.content marker
    then parse_try_block config (trim_prefix s.content marker)
    else parse_script s.content

-- The commands of all selected scripts, in order.
unfoldable pub all_commands : Config → List NamedScript → List Command → Result Error (List Command)
all_commands config [] done = ok done
all_commands config (s ∷ ss) done =
    parse_selected config s >>= λ commands. all_commands config ss (done ++ commands)

unfoldable pub or_error : Error → Option ℤ → Result Error ℤ
or_error e none = err e
or_error e (some d) = ok d

parse_timeout : (Bytes → Option ℤ) → Bytes → ℤ → Error → Result Error ℤ
unfolding or_error
parse_timeout parse_duration text default e =
    if str_eq text [] then ok default else or_error e (parse_duration text)

-- The script and the receive timeout, in nanoseconds; the defaults are 60 and 30 seconds.
unfoldable pub parse_timeouts : (Bytes → Option ℤ) → Timeout → Result Error (ℤ × ℤ)
unfolding parse_timeout
parse_timeouts parse_duration timeout =
    parse_timeout parse_duration timeout.script (pos (60 * 1_000_000_000))
      (invalid_script_timeout timeout.script)
    >>= λ script.
        parse_timeout parse_duration timeout.receive (pos (30 * 1_000_000_000))
          (invalid_receive_timeout timeout.receive)
        >>= λ receive. ok (script, receive)

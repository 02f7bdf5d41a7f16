-- ===== src/Runner/Output.antt =====
-- executeCommand, appendOutput, getLatestOutput, runCommandHandler and outputHandler of
-- cmd/command_runner_server/main.go. Running a program (os/exec) is a parameter.
pub mod Tail
use mqtt_home_automation.Base.{
  ℕ, zero, suc, ◌-◌, ◌≡◌, refl, Bool, List, [], ◌∷◌, ◌++◌, Option, none, some, length, drop, ltb,
  if◌then◌else◌,
}
use mqtt_home_automation.Text.{Bytes, codes, str_eq, fields}
use mqtt_home_automation.Maps.{GoMap, lookup, insert}
use mqtt_home_automation.Runner.State.{State}

abbrev pub latest : Bytes
latest = codes "latest"

abbrev pub max_output_size : ℕ
max_output_size = 10240

-- m[k] of a map of strings: "" where there is no key
unfoldable pub text_at : Bytes → GoMap Bytes → Bytes
text_at k m = elim (lookup k m) [ none ↦ [] | some v ↦ v ]

-- The cut to the last bytes.
pub cut_output : Bytes → Bytes
cut_output output =
    if ltb max_output_size (length output)
    then drop (length output - max_output_size) output
    else output

unfoldable pub append_output : Bytes → State → State
append_output text s =
    let output = text_at latest s.command_outputs ++ text in
    record s { command_outputs = insert latest (cut_output output) s.command_outputs }

unfoldable pub get_latest_output : State → Bytes
get_latest_output s = elim (lookup latest s.command_outputs) [
  | some output ↦ output
  | none ↦ codes "No commands executed yet."
]

-- The body of the answer to /output.
unfoldable pub output_handler : State → Bytes
unfolding get_latest_output
output_handler s = get_latest_output s

repeat : ℕ → Bytes → Bytes
repeat zero s = []
repeat (suc n) s = s ++ repeat n s

error_line : Option Bytes → Bytes
error_line none = []
error_line (some e) = codes "Error: " ++ (e ++ codes "\n")

-- The text that a command leaves: the program's output and its error, if there is one.
unfoldable pub report : (List Bytes → Bytes × Option Bytes) → Bytes → List Bytes → Bytes
unfolding error_line repeat
report exec heading [] = heading ++ codes "Error: Empty command\n\n"
report exec heading (w ∷ ws) =
    let (result, error) = exec (w ∷ ws) in
    heading
    ++ (error_line error ++ (result ++ (codes "\n" ++ (repeat 50 (codes "-") ++ codes "\n\n"))))

unfoldable pub execute_command :
    (List Bytes → Bytes × Option Bytes) → Bytes → Bytes → Bytes → State → State
unfolding report
execute_command exec timestamp name command s =
    let heading = codes "[" ++ (timestamp ++ (codes "] Executing: " ++ (name ++ codes "\n"))) in
    append_output (report exec heading (fields command)) s

-- Every answer of this handler is a redirect to "/".
unfoldable pub run_command_handler :
    (List Bytes → Bytes × Option Bytes) → Bytes → Bytes → Bytes → Bytes → State → State
unfolding str_eq
run_command_handler exec timestamp method name command s =
    if str_eq method (codes "POST")
    then (if str_eq command [] then s else execute_command exec timestamp name command s)
    else s

-- ===== src/Runner/Steps/Outputs.antt =====
-- The output that the pages show, over a run of the server.
use mqtt_home_automation.Base.{
  ℕ, ◌≡◌, refl, ap, subst, ◌∙◌, Bool, false, List, [], ◌∷◌, ◌++◌, append-nil, Option, none, some,
  Bool-cases, if◌then◌else◌, inl, inr, Option-cases,
}
use mqtt_home_automation.Base.Result.{Result}
use mqtt_home_automation.Text.{Bytes, codes, str_eq, fields}
use mqtt_home_automation.Maps.{lookup}
use mqtt_home_automation.Maps.Laws.{lookup-insert_self}
use mqtt_home_automation.Runner.State.{State, Config, LoadError, load_config}
use mqtt_home_automation.Runner.State.Loading.{load_config_fails, load_config_loads}
use mqtt_home_automation.Runner.Output.{
  latest, max_output_size, text_at, cut_output, append_output, get_latest_output, output_handler,
  report, execute_command, run_command_handler,
}
use mqtt_home_automation.Runner.Output.Tail.{last_bytes, last_bytes-append, cut_output-last_bytes}
use mqtt_home_automation.Runner.Watcher.{check_for_changes, watch_tick}
use mqtt_home_automation.Runner.Main.{serving, initial, init_file_watcher, after_load, main}
use mqtt_home_automation.Runner.Main.Watches.{serving-injective, not_loaded-ne-serving}
use mqtt_home_automation.Runner.Steps.{Step, run, tick, Reach, here, next}

-- The report of a request: none, if it runs nothing.
abbrev pub request_text :
    (List Bytes → Bytes × Option Bytes) → Bytes → Bytes → Bytes → Bytes → Bytes
request_text exec timestamp method name command =
    if str_eq method (codes "POST")
    then (if str_eq command []
        then []
        else report exec
            (codes "[" ++ (timestamp ++ (codes "] Executing: " ++ (name ++ codes "\n"))))
            (fields command))
    else []

abbrev pub step_text : {s t : State} → Step s t → Bytes
step_text (run exec timestamp method name command s) =
    request_text exec timestamp method name command
step_text (tick glob mod_time file parses now s) = []

-- The reports of all requests so far, in their order.
abbrev pub reports : {s t : State} → Reach s t → Bytes
reports here = []
reports (next r s) = reports r ++ step_text s

-- The output kept is the end of a text, and there is none before the first report.
abbrev Keeps : Bytes → State → Type 0
Keeps text s =
    lookup latest s.command_outputs
    ≡ (if str_eq text [] then none else some (last_bytes max_output_size text))

append-not_empty : (s t : Bytes) → str_eq t [] ≡ false → str_eq (s ++ t) [] ≡ false
unfolding str_eq
append-not_empty [] t h = h
append-not_empty (c ∷ s) t h = refl

text_at-Keeps :
    (text : Bytes) (s : State)
    → Keeps text s
    → text_at latest s.command_outputs ≡ last_bytes max_output_size text
unfolding text_at str_eq
text_at-Keeps [] s h = rw (text_at, h) refl
text_at-Keeps (c ∷ text) s h = rw (text_at, h) refl

append_output-Keeps :
    (history text : Bytes) (s : State)
    → str_eq text [] ≡ false
    → Keeps history s
    → Keeps (history ++ text) (append_output text s)
unfolding append_output
append_output-Keeps history text s filled h =
    lookup-insert_self latest (cut_output (text_at latest s.command_outputs ++ text))
      s.command_outputs
    ∙ ap some (
        cut_output-last_bytes (text_at latest s.command_outputs ++ text)
        ∙ ap (λ (x : Bytes). last_bytes max_output_size (x ++ text)) (text_at-Keeps history s h)
        ∙ last_bytes-append max_output_size history text)
    ∙ rw (append-not_empty history text filled) refl

report-not_empty :
    (exec : List Bytes → Bytes × Option Bytes) (heading : Bytes) (parts : List Bytes)
    → str_eq (report exec (b'[' ∷ heading) parts) [] ≡ false
unfolding report str_eq
report-not_empty exec heading [] = refl
report-not_empty exec heading (w ∷ ws) = refl

run_command_handler-Keeps :
    (exec : List Bytes → Bytes × Option Bytes) (timestamp method name command history : Bytes)
    (s : State)
    → Keeps history s
    → Keeps
        (history ++ request_text exec timestamp method name command)
        (run_command_handler exec timestamp method name command s)
unfolding run_command_handler execute_command
run_command_handler-Keeps exec timestamp method name command history s h =
    elim (Bool-cases (str_eq method (codes "POST"))) [
      | inr e ↦ rw (e, append-nil history) h
      | inl e ↦ elim (Bool-cases (str_eq command [])) [
        | inl c ↦ rw (e, c, append-nil history) h
        | inr c ↦
            rw (e, c) (append_output-Keeps history _ s (report-not_empty exec _ (fields command)) h)
      ]
    ]

load_config-outputs :
    (file : Result LoadError Config) (parses : Bytes → Bool) (now : ℕ) (s : State)
    → (load_config file parses now s).1.command_outputs ≡ s.command_outputs
load_config-outputs file parses now s = elim (Option-cases (load_config file parses now s).0) [
  | inl e ↦ (load_config_loads file parses now s e).outputs
  | inr (e, x) ↦ ap (λ (t : State). t.command_outputs) (load_config_fails file parses now s e x)
]

watch_tick-outputs :
    (glob : Bytes → Option (List Bytes)) (mod_time : Bytes → Option ℕ)
    (file : Result LoadError Config) (parses : Bytes → Bool) (now : ℕ) (s : State)
    → (watch_tick glob mod_time file parses now s).command_outputs ≡ s.command_outputs
unfolding watch_tick check_for_changes
watch_tick-outputs glob mod_time file parses now s =
    elim (Bool-cases (check_for_changes glob mod_time s).0) [
      | inl e ↦ rw e (load_config-outputs file parses now (check_for_changes glob mod_time s).1)
      | inr e ↦ rw e refl
    ]

Reach-Keeps : {s t : State} (r : Reach s t) → Keeps [] s → Keeps (reports r) t
Reach-Keeps here h = h
Reach-Keeps (next r (run exec timestamp method name command s)) h =
    run_command_handler-Keeps exec timestamp method name command (reports r) s (Reach-Keeps r h)
Reach-Keeps (next r (tick glob mod_time file parses now s)) h =
    ap (lookup latest) (watch_tick-outputs glob mod_time file parses now s)
    ∙ rw (append-nil (reports r)) (Reach-Keeps r h)

-- What the pages show: the end of the reports, or that there are none.
shows :
    (text : Bytes) (s : State)
    → Keeps text s
    → get_latest_output s ≡ (
        if str_eq text []
        then codes "No commands executed yet."
        else last_bytes max_output_size text)
unfolding get_latest_output str_eq
shows [] s h = rw (get_latest_output, h) refl
shows (c ∷ text) s h = rw (get_latest_output, h) refl

started-Keeps :
    (glob : Bytes → Option (List Bytes)) (mod_time : Bytes → Option ℕ) (start : ℕ)
    (r : Option LoadError × State) {address static : Bytes} {s : State}
    → r.1.command_outputs ≡ []
    → after_load glob mod_time start r ≡ serving address static s
    → Keeps [] s
unfolding after_load init_file_watcher str_eq lookup
started-Keeps glob mod_time start (some e, s) empty h = absurd (not_loaded-ne-serving h)
started-Keeps glob mod_time start (none, s) empty h =
    subst (Keeps []) (serving-injective h) (ap (lookup latest) empty)

-- If main serves, then after whatever requests and ticks of the watcher, in whatever order, and
-- however often the configuration was loaded again, the text that /output answers is the default
-- message, if no request has left a report yet, and else the last 10240 bytes of all the reports that
-- requests have left, in their order, or all of them if they are fewer.
pub main_shows_reports :
    (glob : Bytes → Option (List Bytes)) (mod_time : Bytes → Option ℕ) (config_file : Bytes)
    (file : Result LoadError Config) (parses : Bytes → Bool) (start loaded : ℕ)
    {address static : Bytes} {s t : State}
    → main glob mod_time config_file file parses start loaded ≡ serving address static s
    → (r : Reach s t)
    → output_handler t ≡ (
        if str_eq (reports r) []
        then codes "No commands executed yet."
        else last_bytes max_output_size (reports r))
unfolding main output_handler
main_shows_reports glob mod_time config_file file parses start loaded {t = t} h r =
    shows (reports r) t (
      Reach-Keeps r (
        started-Keeps glob mod_time start
          (load_config file parses loaded (record initial { config_file = config_file }))
          (load_config-outputs file parses loaded (record initial { config_file = config_file }))
          h))

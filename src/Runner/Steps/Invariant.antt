-- ===== src/Runner/Steps/Invariant.antt =====
-- What stays true of the server, whatever requests and ticks come.
use mqtt_home_automation.Base.{
  ℕ, ◌-◌, ◌≤◌, ◌≡◌, refl, sym, ◌∙◌, subst, Bool, false, List, [], ◌++◌, Option, none, some, length,
  arith, Bool-cases, Option-cases, length-drop, inl, inr,
}
use mqtt_home_automation.Base.Result.{Result, ok, err}
use mqtt_home_automation.Text.{Bytes, codes, str_eq}
use mqtt_home_automation.Runner.State.{State, Config, LoadError, with_framework, load_config}
use mqtt_home_automation.Runner.State.Loading.{load_config_fails, load_config_loads}
use mqtt_home_automation.Runner.Output.{
  latest, max_output_size, text_at, append_output, execute_command, run_command_handler,
}
use mqtt_home_automation.Runner.Output.Tail.{last_bytes, text_at-append_output}
use mqtt_home_automation.Runner.Watcher.{check_for_changes, watch_tick}
use mqtt_home_automation.Runner.Main.{serving, initial, init_file_watcher, after_load, main}
use mqtt_home_automation.Runner.Main.Watches.{serving-injective, not_loaded-ne-serving}
use mqtt_home_automation.Maps.{lookup}
use mqtt_home_automation.Runner.Steps.{Step, run, tick, Reach, here, next}

-- A user interface is named, the templates are those of the configuration in force, the output is
-- within its limit, and the configuration file is the one of the flags.
pub record IsSound (config_file : Bytes) (s : State) : Type 0 where
  pub framework : str_eq s.config.server.ui_framework [] ≡ false
  pub templates : s.templates ≡ s.config.server.web_dir ++ codes "/*.html"
  pub output : length (text_at latest s.command_outputs) ≤ max_output_size
  pub file : s.config_file ≡ config_file

length-last_bytes : (n : ℕ) (s : Bytes) → length (last_bytes n s) ≤ n
length-last_bytes n s = omega (arith, length-drop (length s - n) s)

append_output-IsSound :
    (f text : Bytes) (s : State) → IsSound f s → IsSound f (append_output text s)
unfolding append_output
append_output-IsSound f text s h = record {
  framework = h.framework;
  templates = h.templates;
  output =
      subst (λ x. length x ≤ max_output_size) (sym (text_at-append_output text s))
        (length-last_bytes max_output_size (text_at latest s.command_outputs ++ text));
  file = h.file;
}

run_command_handler-IsSound :
    (f : Bytes) (exec : List Bytes → Bytes × Option Bytes) (timestamp method name command : Bytes)
    (s : State)
    → IsSound f s
    → IsSound f (run_command_handler exec timestamp method name command s)
unfolding run_command_handler execute_command
run_command_handler-IsSound f exec timestamp method name command s h =
    elim (Bool-cases (str_eq method (codes "POST"))) [
      | inr e ↦ rw e h
      | inl e ↦ elim (Bool-cases (str_eq command [])) [
        | inl c ↦ rw (e, c) h
        | inr c ↦ rw (e, c) (append_output-IsSound f _ s h)
      ]
    ]

load_config-config_file :
    (file : Result LoadError Config) (parses : Bytes → Bool) (now : ℕ) (s : State)
    → (load_config file parses now s).1.config_file ≡ s.config_file
unfolding load_config
load_config-config_file (err e) parses now s = refl
load_config-config_file (ok c) parses now s =
    elim (Bool-cases (parses ((with_framework c).server.web_dir ++ codes "/*.html"))) [
      | inl e ↦ rw e
      | inr e ↦ rw e
    ]

-- A load keeps a sound state sound; one that succeeds makes the state of the start sound.
load_config-IsSound :
    (f : Bytes) (file : Result LoadError Config) (parses : Bytes → Bool) (now : ℕ) (s : State)
    → (load_config file parses now s).0 ≡ none
    → length (text_at latest s.command_outputs) ≤ max_output_size
    → s.config_file ≡ f
    → IsSound f (load_config file parses now s).1
load_config-IsSound f file parses now s e o c =
    let l = load_config_loads file parses now s e in
    record {
      framework = l.framework;
      templates = l.templates;
      output = subst (λ m. length (text_at latest m) ≤ max_output_size) (sym l.outputs) o;
      file = load_config-config_file file parses now s ∙ c;
    }

check_for_changes-IsSound :
    (f : Bytes) (glob : Bytes → Option (List Bytes)) (mod_time : Bytes → Option ℕ) (s : State)
    → IsSound f s
    → IsSound f (check_for_changes glob mod_time s).1
unfolding check_for_changes
check_for_changes-IsSound f glob mod_time s h = record {
  framework = h.framework;
  templates = h.templates;
  output = h.output;
  file = h.file;
}

reload-IsSound :
    (f : Bytes) (file : Result LoadError Config) (parses : Bytes → Bool) (now : ℕ) (s : State)
    → IsSound f s
    → IsSound f (load_config file parses now s).1
reload-IsSound f file parses now s h = elim (Option-cases (load_config file parses now s).0) [
  | inl e ↦ load_config-IsSound f file parses now s e h.output h.file
  | inr (e, x) ↦ subst (IsSound f) (sym (load_config_fails file parses now s e x)) h
]

Step-IsSound : (f : Bytes) {s t : State} → Step s t → IsSound f s → IsSound f t
unfolding watch_tick
Step-IsSound f (run exec timestamp method name command s) h =
    run_command_handler-IsSound f exec timestamp method name command s h
Step-IsSound f (tick glob mod_time file parses now s) h =
    let checked = check_for_changes-IsSound f glob mod_time s h in
    elim (Bool-cases (check_for_changes glob mod_time s).0) [
      | inl e ↦
          rw e (reload-IsSound f file parses now (check_for_changes glob mod_time s).1 checked)
      | inr e ↦ rw e checked
    ]

Reach-IsSound : (f : Bytes) {s t : State} → IsSound f s → Reach s t → IsSound f t
Reach-IsSound f h here = h
Reach-IsSound f h (next r s) = Step-IsSound f s (Reach-IsSound f h r)

initial_output : length (text_at latest initial.command_outputs) ≤ max_output_size
unfolding text_at lookup
initial_output = omega arith

-- What after_load serves, a load that succeeded has made.
after_load-serving :
    (glob : Bytes → Option (List Bytes)) (mod_time : Bytes → Option ℕ) (start : ℕ) (f : Bytes)
    (r : Option LoadError × State) {address static : Bytes} {s : State}
    → (r.0 ≡ none → IsSound f r.1)
    → after_load glob mod_time start r ≡ serving address static s
    → IsSound f s
unfolding after_load init_file_watcher
after_load-serving glob mod_time start f (some e, s) h x = absurd (not_loaded-ne-serving x)
after_load-serving glob mod_time start f (none, s) h x =
    let l = h refl in
    subst (IsSound f) (serving-injective x) (record {
      framework = l.framework;
      templates = l.templates;
      output = l.output;
      file = l.file;
    })

-- Whatever requests to run commands and whatever ticks of the watcher follow the start, in whatever
-- order, with loads that succeed or fail: a user interface is named, the templates in force are those
-- of the directory that the configuration in force names, the output has at most 10240 bytes, and the
-- configuration file is the one of the flags.
pub main-IsSound :
    (glob : Bytes → Option (List Bytes)) (mod_time : Bytes → Option ℕ) (config_file : Bytes)
    (file : Result LoadError Config) (parses : Bytes → Bool) (start loaded : ℕ)
    {address static : Bytes} {s t : State}
    → main glob mod_time config_file file parses start loaded ≡ serving address static s
    → Reach s t
    → IsSound config_file t
unfolding main
main-IsSound glob mod_time config_file file parses start loaded h r =
    let before = record initial { config_file = config_file } in
    Reach-IsSound config_file
      (after_load-serving glob mod_time start config_file (load_config file parses loaded before)
        (λ e. load_config-IsSound config_file file parses loaded before e initial_output refl) h)
      r

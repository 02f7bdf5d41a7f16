-- ===== src/Runner/State/Loading.antt =====
-- What loading the configuration leaves.
use mqtt_home_automation.Base.{
  ℕ, ◌≡◌, refl, Bool, true, false, [], ◌++◌, none, some, Bool-cases, inl, inr,
}
use mqtt_home_automation.Base.Result.{Result, ok, err}
use mqtt_home_automation.Text.{Bytes, codes, str_eq}
use mqtt_home_automation.Runner.State.{State, Config, LoadError, with_framework, load_config}

-- A load that fails, at whatever step, leaves the state as it is.
pub load_config_fails :
    (file : Result LoadError Config) (parses : Bytes → Bool) (now : ℕ) (s : State) (e : LoadError)
    → (load_config file parses now s).0 ≡ some e
    → (load_config file parses now s).1 ≡ s
unfolding load_config
load_config_fails (err f) parses now s e h = refl
load_config_fails (ok c) parses now s e h =
    elim (Bool-cases (parses ((with_framework c).server.web_dir ++ codes "/*.html"))) [
      | inl b ↦ cc (rw b at h)
      | inr b ↦ rw b
    ]

with_framework_named : (c : Config) → str_eq (with_framework c).server.ui_framework [] ≡ false
unfolding with_framework
with_framework_named c = elim (Bool-cases (str_eq c.server.ui_framework [])) [
  | inl b ↦ rw b
  | inr b ↦ rw b b
]

-- What a load that succeeds leaves: a configuration with a user interface, the templates of its own
-- directory, which are parsed, and the outputs and the files on record as they were.
pub record Loaded (parses : Bytes → Bool) (now : ℕ) (before after : State) : Type 0 where
  pub framework : str_eq after.config.server.ui_framework [] ≡ false
  pub templates : after.templates ≡ after.config.server.web_dir ++ codes "/*.html"
  pub parsed : parses after.templates ≡ true
  pub time : after.last_reload_time ≡ some now
  pub outputs : after.command_outputs ≡ before.command_outputs
  pub watched : after.watched_files ≡ before.watched_files

-- A load that succeeds leaves a configuration with a user interface and the parsed templates of the
-- directory that this configuration names, sets the time of the load, and touches neither the
-- outputs nor the files on record.
pub load_config_loads :
    (file : Result LoadError Config) (parses : Bytes → Bool) (now : ℕ) (s : State)
    → (load_config file parses now s).0 ≡ none
    → Loaded parses now s (load_config file parses now s).1
unfolding load_config
load_config_loads (err f) parses now s h = cc
load_config_loads (ok c) parses now s h =
    elim (Bool-cases (parses ((with_framework c).server.web_dir ++ codes "/*.html"))) [
      | inl b ↦ rw b (record {
        framework = with_framework_named c;
        templates = refl;
        parsed = b;
        time = refl;
        outputs = refl;
        watched = refl;
      })
      | inr b ↦ cc (rw b at h)
    ]

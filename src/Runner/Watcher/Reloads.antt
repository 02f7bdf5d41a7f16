-- ===== src/Runner/Watcher/Reloads.antt =====
-- What a tick of the watcher does with a change: the load that succeeds, and the load that fails.
use mqtt_home_automation.Base.{
  ℕ, ◌≡◌, refl, ap, sym, ◌∙◌, Bool, true, List, ◌++◌, Option, some, Bool-cases, inl, inr,
}
use mqtt_home_automation.Base.Result.{Result, ok}
use mqtt_home_automation.Text.{Bytes, codes}
use mqtt_home_automation.Runner.State.{State, Config, LoadError, with_framework, load_config}
use mqtt_home_automation.Runner.State.Loading.{load_config_fails}
use mqtt_home_automation.Runner.Watcher.{check_for_changes, watch_tick}
use mqtt_home_automation.Runner.Watcher.Changes.{check_for_changes_once}
use mqtt_home_automation.Runner.Watcher.Newer.{IsWatched, IsNewer, check_for_changes-IsNewer}

module _ (glob : Bytes → Option (List Bytes)) (mod_time : Bytes → Option ℕ) where
  -- The state that a check leaves has nothing new in it.
  watch_tick_quiet :
      (file : Result LoadError Config) (parses : Bytes → Bool) (now : ℕ) (s : State)
      → watch_tick glob mod_time file parses now (check_for_changes glob mod_time s).1
        ≡ (check_for_changes glob mod_time s).1
  unfolding watch_tick
  watch_tick_quiet file parses now s = rw (check_for_changes_once glob mod_time s) refl

  watch_tick_failed :
      (file : Result LoadError Config) (parses : Bytes → Bool) (now : ℕ) (s : State) (e : LoadError)
      → (load_config file parses now (check_for_changes glob mod_time s).1).0 ≡ some e
      → watch_tick glob mod_time file parses now s ≡ (check_for_changes glob mod_time s).1
  unfolding watch_tick
  watch_tick_failed file parses now s e h =
      elim (Bool-cases (check_for_changes glob mod_time s).0) [
        | inl b ↦ rw b (load_config_fails file parses now (check_for_changes glob mod_time s).1 e h)
        | inr b ↦ rw b
      ]

  -- A tick whose load fails leaves exactly what its check of the files leaves, and the load is not
  -- tried again: a tick that finds the same files leaves the state as it is, whatever they now hold.
  pub watch_tick_not_retried :
      (file : Result LoadError Config) (parses : Bytes → Bool) (now : ℕ) (s : State) (e : LoadError)
      → (load_config file parses now (check_for_changes glob mod_time s).1).0 ≡ some e
      → (file' : Result LoadError Config) (parses' : Bytes → Bool) (now' : ℕ)
      → (watch_tick glob mod_time file parses now s ≡ (check_for_changes glob mod_time s).1)
        × (watch_tick glob mod_time file' parses' now' (watch_tick glob mod_time file parses now s)
            ≡ watch_tick glob mod_time file parses now s)
  watch_tick_not_retried file parses now s e h file' parses' now' =
      let failed = watch_tick_failed file parses now s e h in
      (
        failed,
        ap (watch_tick glob mod_time file' parses' now') failed
            ∙ watch_tick_quiet file' parses' now' s
            ∙ sym failed,
      )

  -- When a watched file is newer than the record of it, and the configuration is decoded and its
  -- templates are parsed, the next tick puts this configuration in force, with the default user
  -- interface if it names none, and its time on record.
  pub watch_tick_reloads :
      (c : Config) (parses : Bytes → Bool) (now : ℕ) (s : State)
      → (f : Bytes) × IsWatched glob s f × IsNewer mod_time s.watched_files f
      → parses ((with_framework c).server.web_dir ++ codes "/*.html") ≡ true
      → ((watch_tick glob mod_time (ok c) parses now s).config ≡ with_framework c)
        × ((watch_tick glob mod_time (ok c) parses now s).last_reload_time ≡ some now)
  unfolding watch_tick load_config
  watch_tick_reloads c parses now s found h =
      rw ((check_for_changes-IsNewer glob mod_time s).1 found, h) (refl, refl)

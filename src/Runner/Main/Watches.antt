-- ===== src/Runner/Main/Watches.antt =====
-- What the ticks of the file watcher do to the state that main has set up.
use mqtt_home_automation.Base.{
  ℕ, ◌≡◌, refl, ap, sym, ◌∙◌, Bool, false, List, [], ◌∷◌, Option, none, some, All, Option-cases,
  eq_of_some, subst, inl, inr,
}
use mqtt_home_automation.Base.Result.{Result}
use mqtt_home_automation.Text.{Bytes}
use mqtt_home_automation.Maps.{GoMap, insert}
use mqtt_home_automation.Maps.Laws.{lookup-insert_self}
use mqtt_home_automation.Runner.State.{State, Config, LoadError, load_config}
use mqtt_home_automation.Runner.Watcher.{
  is_newer, init_files, get_watched_files, check_for_changes, watch_tick,
}
use mqtt_home_automation.Runner.Watcher.Changes.{
  IsSeen, is_newer_self, is_newer-insert, check_files_seen,
}
use mqtt_home_automation.Runner.Main.{
  not_loaded, serving, initial, init_file_watcher, after_load, main,
}

module _ (mod_time : Bytes → Option ℕ) where
  init_files-keeps :
      (fs : List Bytes) (g : Bytes) (w : GoMap ℕ)
      → IsSeen mod_time w g
      → IsSeen mod_time (init_files mod_time fs w) g
  unfolding init_files
  init_files-keeps [] g w h = h
  init_files-keeps (f ∷ fs) g w h = elim (Option-cases (mod_time f)) [
    | inl e ↦ rw e (init_files-keeps fs g w h)
    | inr (t, e) ↦ rw e (
        init_files-keeps fs g (insert f t w)
          (record { seen = λ u eg. is_newer-insert mod_time f g w t u e eg (h.seen u eg) }))
  ]

  -- What a round puts on record.
  abbrev init_file : Bytes → GoMap ℕ → GoMap ℕ
  init_file f w = elim (mod_time f) [ none ↦ w | some t ↦ insert f t w ]

  init_file-IsSeen : (f : Bytes) (w : GoMap ℕ) → IsSeen mod_time (init_file f w) f
  init_file-IsSeen f w = elim (Option-cases (mod_time f)) [
    | inl e ↦ rw (init_file, e) (record { seen = λ t h. cc (e, h) })
    | inr (t, e) ↦
        rw (init_file, e)
          (record {
            seen = λ u h. rw (lookup-insert_self f t w) (
                subst (λ v. is_newer (some v) u ≡ false) (eq_of_some (sym h ∙ e))
                  (is_newer_self mod_time u));
          })
  ]

  init_files-IsSeen :
      (fs : List Bytes) (w : GoMap ℕ) → All (IsSeen mod_time (init_files mod_time fs w)) fs
  unfolding init_files
  init_files-IsSeen [] w = tt
  init_files-IsSeen (f ∷ fs) w = (
    init_files-keeps fs f (init_file f w) (init_file-IsSeen f w),
    init_files-IsSeen fs (init_file f w),
  )

pub check_for_changes-init_file_watcher :
    (glob : Bytes → Option (List Bytes)) (mod_time : Bytes → Option ℕ) (s : State)
    → check_for_changes glob mod_time (init_file_watcher glob mod_time s)
      ≡ (false, init_file_watcher glob mod_time s)
unfolding check_for_changes init_file_watcher get_watched_files
check_for_changes-init_file_watcher glob mod_time s =
    let files = get_watched_files glob s in
    let w = init_files mod_time files s.watched_files in
    ap (λ (r : GoMap ℕ × Bool). (r.1, record s { watched_files = r.0 }))
      (check_files_seen mod_time files (w, false)
        (init_files-IsSeen mod_time files s.watched_files))

-- What main leaves running: the time of the start as the time of the last reload, and a watcher that
-- sees nothing new.
pub record IsWatching (glob : Bytes → Option (List Bytes)) (mod_time : Bytes → Option ℕ) (start : ℕ)
    (s : State) : Type 0 where
  pub started : s.last_reload_time ≡ some start
  pub quiet :
      (file : Result LoadError Config) (parses : Bytes → Bool) (now : ℕ)
      → watch_tick glob mod_time file parses now s ≡ s

init_file_watcher-IsWatching :
    (glob : Bytes → Option (List Bytes)) (mod_time : Bytes → Option ℕ) (start : ℕ) (s : State)
    → s.last_reload_time ≡ some start
    → IsWatching glob mod_time start (init_file_watcher glob mod_time s)
unfolding watch_tick init_file_watcher
init_file_watcher-IsWatching glob mod_time start s h = record {
  started = h;
  quiet = λ file parses now. rw (check_for_changes-init_file_watcher glob mod_time s) refl;
}

pub serving-injective : {a b c d : Bytes} {s t : State} → serving a c s ≡ serving b d t → s ≡ t
serving-injective h = cc

pub not_loaded-ne-serving :
    {e : LoadError} {a b : Bytes} {s : State} → not_loaded e ≡ serving a b s → ⊥
not_loaded-ne-serving h = cc

after_load-IsWatching :
    (glob : Bytes → Option (List Bytes)) (mod_time : Bytes → Option ℕ) (start : ℕ)
    (r : Option LoadError × State) {address static : Bytes} {s : State}
    → after_load glob mod_time start r ≡ serving address static s
    → IsWatching glob mod_time start s
unfolding after_load
after_load-IsWatching glob mod_time start (some e, s) h = absurd (not_loaded-ne-serving h)
after_load-IsWatching glob mod_time start (none, s) h =
    subst (IsWatching glob mod_time start) (serving-injective h) (
      init_file_watcher-IsWatching glob mod_time start (record s { last_reload_time = some start })
        refl)

-- Where main serves, the time of the last reload is that of the start, and a tick of the watcher that
-- finds the files as main found them leaves the state as it is, whatever the configuration file then
-- holds.
pub main_watches :
    (glob : Bytes → Option (List Bytes)) (mod_time : Bytes → Option ℕ) (config_file : Bytes)
    (file : Result LoadError Config) (parses : Bytes → Bool) (start loaded : ℕ)
    {address static : Bytes} {s : State}
    → main glob mod_time config_file file parses start loaded ≡ serving address static s
    → IsWatching glob mod_time start s
unfolding main
main_watches glob mod_time config_file file parses start loaded h =
    after_load-IsWatching glob mod_time start
      (load_config file parses loaded (record initial { config_file = config_file })) h

-- ===== src/Runner/Watcher.antt =====
-- The file watcher of cmd/command_runner_server/main.go. The file system is a parameter: `glob` gives
-- the files of a pattern, `mod_time` the time of a file's last change, if it can be read.
pub mod Changes
pub mod Newer
pub mod Reloads
pub mod Follows
use mqtt_home_automation.Base.{
  ℕ, Bool, true, false, List, [], ◌∷◌, ◌++◌, Option, none, some, ltb, if◌then◌else◌,
}
use mqtt_home_automation.Base.Result.{Result}
use mqtt_home_automation.Text.{Bytes, codes}
use mqtt_home_automation.Maps.{GoMap, lookup, insert}
use mqtt_home_automation.Runner.State.{State, Config, LoadError, load_config}

unfoldable pub matched : Option (List Bytes) → List Bytes
matched none = []
matched (some files) = files

unfoldable pub get_watched_files : (Bytes → Option (List Bytes)) → State → List Bytes
unfolding matched
get_watched_files glob s =
    let web = s.config.server.web_dir in
    s.config_file
    ∷ (matched (glob (web ++ codes "/*.html"))
        ++ (matched (glob (web ++ codes "/static/css/*.css"))
            ++ matched (glob (web ++ codes "/static/js/*.js"))))

-- The loop of initFileWatcher.
unfoldable pub init_files : (Bytes → Option ℕ) → List Bytes → GoMap ℕ → GoMap ℕ
init_files mod_time [] w = w
init_files mod_time (f ∷ fs) w =
    init_files mod_time fs (elim (mod_time f) [ none ↦ w | some t ↦ insert f t w ])

-- !exists || currentModTime.After(lastModTime)
unfoldable pub is_newer : Option ℕ → ℕ → Bool
is_newer none t = true
is_newer (some last) t = ltb last t

-- A round of the loop of checkForChanges.
unfoldable pub check_file : Bytes → Option ℕ → GoMap ℕ × Bool → GoMap ℕ × Bool
unfolding is_newer
check_file f none (w, changed) = (w, changed)
check_file f (some t) (w, changed) =
    if is_newer (lookup f w) t then (insert f t w, true) else (w, changed)

unfoldable pub check_files : (Bytes → Option ℕ) → List Bytes → GoMap ℕ × Bool → GoMap ℕ × Bool
check_files mod_time [] r = r
check_files mod_time (f ∷ fs) r = check_files mod_time fs (check_file f (mod_time f) r)

unfoldable pub check_for_changes :
    (Bytes → Option (List Bytes)) → (Bytes → Option ℕ) → State → Bool × State
check_for_changes glob mod_time s =
    let (w, changed) = check_files mod_time (get_watched_files glob s) (s.watched_files, false) in
    (changed, record s { watched_files = w })

-- A tick of startFileWatcher: the configuration is loaded again if a file changed.
unfoldable pub watch_tick :
    (Bytes → Option (List Bytes))
    → (Bytes → Option ℕ)
    → Result LoadError Config
    → (Bytes → Bool)
    → ℕ
    → State
    → State
watch_tick glob mod_time file parses now s =
    let (changed, s') = check_for_changes glob mod_time s in
    if changed then (load_config file parses now s').1 else s'

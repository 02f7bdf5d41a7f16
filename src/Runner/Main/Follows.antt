-- ===== src/Runner/Main/Follows.antt =====
-- From main on, the configuration in force is that of the file.
use mqtt_home_automation.Base.{ℕ, ◌≡◌, refl, subst, List, [], Option, Bool-cases, inl, inr}
use mqtt_home_automation.Base.Result.{ok}
use mqtt_home_automation.Text.{Bytes, codes, str_eq}
use mqtt_home_automation.Runner.State.{State, with_framework, load_config}
use mqtt_home_automation.Runner.Output.{execute_command, append_output, run_command_handler}
use mqtt_home_automation.Runner.Watcher.{get_watched_files}
use mqtt_home_automation.Runner.Watcher.Follows.{
  Version, IsLoadable, Later, IsInForce, tick_at, tick-IsInForce, init_files-records,
}
use mqtt_home_automation.Runner.Main.{serving, init_file_watcher, after_load, main}
use mqtt_home_automation.Runner.Main.Watches.{serving-injective}

-- What ticks of the watcher and requests to run commands make of a state, with the version of the
-- files that the last tick found. Each tick finds a file that can be loaded.
pub data Follows (file : Bytes) (v : Version) (s : State) : Version → State → Type 0 where
  begin : Follows file v s v s
  tick :
      {w : Version} {a : State} (u : Version)
      → Follows file v s w a
      → IsLoadable file u
      → Later w u
      → Follows file v s u (tick_at u a)
  request :
      {w : Version} {a : State} (exec : List Bytes → Bytes × Option Bytes)
      (timestamp method name command : Bytes)
      → Follows file v s w a
      → Follows file v s w (run_command_handler exec timestamp method name command a)

request-IsInForce :
    (file : Bytes) (v : Version) (exec : List Bytes → Bytes × Option Bytes)
    (timestamp method name command : Bytes) (s : State)
    → IsInForce file v s
    → IsInForce file v (run_command_handler exec timestamp method name command s)
unfolding run_command_handler execute_command append_output
request-IsInForce file v exec timestamp method name command s h =
    elim (Bool-cases (str_eq method (codes "POST"))) [
      | inr e ↦ rw e h
      | inl e ↦ elim (Bool-cases (str_eq command [])) [
        | inl c ↦ rw (e, c) h
        | inr c ↦
            rw (e, c)
              (record { file_kept = h.file_kept; on_record = h.on_record; in_force = h.in_force })
      ]
    ]

Follows-IsInForce :
    {file : Bytes} {v : Version} {s : State} {u : Version} {t : State}
    → IsInForce file v s
    → Follows file v s u t
    → IsInForce file u t
Follows-IsInForce h begin = h
Follows-IsInForce {file} h (tick {w} {a} u f l later) =
    tick-IsInForce file w u a (Follows-IsInForce h f) l later
Follows-IsInForce {file} h (request {w} {a} exec timestamp method name command f) =
    request-IsInForce file w exec timestamp method name command a (Follows-IsInForce h f)

main-IsInForce :
    (file : Bytes) (v : Version) (start : ℕ) {address static : Bytes} {s : State}
    → IsLoadable file v
    → main v.glob v.mod_time file (ok v.content) v.parses start v.now ≡ serving address static s
    → IsInForce file v s
unfolding main load_config after_load init_file_watcher get_watched_files
main-IsInForce file v start l h =
    subst (IsInForce file v) (serving-injective (rw l.parsed at h)) (record {
      file_kept = refl;
      on_record = init_files-records v.mod_time file v.time _ _ l.timed;
      in_force = refl;
    })

-- If main serves with a configuration file that can be loaded, and every tick of the watcher finds
-- one that can be loaded and has a later time than before if it was written: then after whatever
-- ticks and requests, in whatever order, the configuration in force is the one that the file held at
-- the last tick, with the default user interface if it names none.
pub main-Follows :
    (file : Bytes) (v : Version) (start : ℕ) {u : Version} {address static : Bytes} {s t : State}
    → IsLoadable file v
    → main v.glob v.mod_time file (ok v.content) v.parses start v.now ≡ serving address static s
    → Follows file v s u t
    → t.config ≡ with_framework u.content
main-Follows file v start l h f = (Follows-IsInForce (main-IsInForce file v start l h) f).in_force

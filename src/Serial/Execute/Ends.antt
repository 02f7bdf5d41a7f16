-- ===== src/Serial/Execute/Ends.antt =====
-- A script ends as long as its timers fire.
use mqtt_home_automation.Base.{ℕ, ◌+◌, ◌≤◌, ◌≡◌, ◌≢◌, refl, List, [], ◌∷◌, All, inr}
use mqtt_home_automation.Maps.{lookup}
use mqtt_home_automation.Serial.Config.{Command, send, expect, monitor, try}
use mqtt_home_automation.Serial.Port.{Event, World, Outcome, done, waiting, failed, Env}
use mqtt_home_automation.Serial.Port.Timers.{
  expiries, Takes, Takes-none, Takes-then, Takes-stop, handle_send-Takes,
}
use mqtt_home_automation.Serial.Expect.Ends.{handle_expect-Takes}
use mqtt_home_automation.Serial.Monitor.{parse_limits}
use mqtt_home_automation.Serial.Monitor.Ends.{HasNoCount, handle_monitor-Takes}
use mqtt_home_automation.Serial.Try.Attempts.{rounds, script_length, IsTimedScript}
use mqtt_home_automation.Serial.Try.Ends.{handle_try-Takes}
use mqtt_home_automation.Serial.Execute.{after_command, run_command, execute_script}

-- The timers that a command may need: one for an expect or a monitor command, and for a try block one
-- for each command of its script in two attempts, and for each of its except script.
abbrev pub timers_of : Command → ℕ
timers_of (send v) = 0
timers_of (expect v) = 1
timers_of (monitor v) = 1
timers_of (try name block scripts) =
    rounds 2 (script_length (lookup block.script scripts))
    + script_length (lookup block.except scripts)

abbrev pub all_timers : List Command → ℕ
all_timers [] = 0
all_timers (c ∷ cs) = timers_of c + all_timers cs

module _ (env : Env) where
  -- No monitor command that counts lines, also not in the scripts of a try block.
  abbrev pub IsTimed : Command → Type 0
  IsTimed (send v) = Unit
  IsTimed (expect v) = Unit
  IsTimed (monitor v) = HasNoCount (parse_limits env v)
  IsTimed (try name block scripts) =
      IsTimedScript env (lookup block.script scripts)
      × IsTimedScript env (lookup block.except scripts)

  run_command-Takes :
      (c : Command) (w : World)
      → IsTimed c
      → Takes
          (timers_of c)
          w.events
          ((run_command env c w).0 ≡ waiting)
          (run_command env c w).1.events
  unfolding run_command
  run_command-Takes (send v) w h = handle_send-Takes v w
  run_command-Takes (expect v) w h = handle_expect-Takes env v w
  run_command-Takes (monitor v) w h = handle_monitor-Takes env v w h
  run_command-Takes (try name block scripts) w (h, g) = handle_try-Takes env block scripts w h g

  after_command-Takes :
      (n m : ℕ) (before : List Event) (rest : World → Outcome × World) (r : Outcome × World)
      → Takes n before (r.0 ≡ waiting) r.1.events
      → ((w : World) → Takes m w.events ((rest w).0 ≡ waiting) (rest w).1.events)
      → Takes (n + m) before ((after_command rest r).0 ≡ waiting) (after_command rest r).1.events
  after_command-Takes n m before rest (done, w) t f =
      Takes-then n m before w.events _ t (f w) (λ x. inr x)
  after_command-Takes n m before rest (failed e, w) t f =
      Takes-then n m before w.events w.events t (Takes-none m w.events {Waits = ⊥} (λ x. x))
        (λ x. absurd (cc x))
  after_command-Takes n m before rest (waiting, w) t f = Takes-stop n m before w.events t refl

  execute_script-Takes :
      (cs : List Command) (w : World)
      → All IsTimed cs
      → Takes
          (all_timers cs)
          w.events
          ((execute_script env cs w).0 ≡ waiting)
          (execute_script env cs w).1.events
  unfolding execute_script
  execute_script-Takes [] w h = Takes-none 0 w.events (λ x. cc x)
  execute_script-Takes (c ∷ cs) w (hc, h) =
      after_command-Takes (timers_of c) (all_timers cs) w.events (execute_script env cs)
        (run_command env c w) (run_command-Takes c w hc) (λ w'. execute_script-Takes cs w' h)

  -- A script without monitor commands that count lines, also in its try blocks, does not wait for
  -- ever: whatever texts come, if as many timers fire as its commands may need, it ends, and it takes
  -- no more of the timers than that.
  pub execute_script_ends :
      (cs : List Command) (w : World)
      → All IsTimed cs
      → all_timers cs ≤ expiries w.events
      → ((execute_script env cs w).0 ≢ waiting)
        × (expiries w.events ≤ all_timers cs + expiries (execute_script env cs w).1.events)
  execute_script_ends cs w h fire =
      let t = execute_script-Takes cs w h in (λ x. t.ends fire x, t.left)

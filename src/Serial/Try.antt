-- ===== src/Serial/Try.antt =====
-- handleTry of cmd/serial_expect/main.go.
pub mod Sends
pub mod Retries
pub mod Attempts
pub mod Ends
use mqtt_home_automation.Base.{ℕ, zero, suc, List, [], ◌∷◌, Option, none, some, if◌then◌else◌}
use mqtt_home_automation.Base.Result.{Result, ok, err}
use mqtt_home_automation.Text.{Bytes, str_eq}
use mqtt_home_automation.Maps.{GoMap, lookup}
use mqtt_home_automation.Serial.Config.{Command, send, expect, monitor, try, NamedScript, TryBlock}
use mqtt_home_automation.Serial.Errors.{
  Error, script_not_found, except_not_found, parse_failed, parse_except_failed, try_failed,
}
use mqtt_home_automation.Serial.Port.{World, Outcome, done, waiting, failed, Env, handle_send}
use mqtt_home_automation.Serial.Expect.{handle_expect}
use mqtt_home_automation.Serial.Monitor.{handle_monitor}
use mqtt_home_automation.Serial.Script.{parse_script}

-- How a run over the commands of a script ends: with the last error, if there was one.
pub data Attempt : Type 0 where
  ended : Option Error → Attempt
  stuck : Attempt

-- What the loop does after a sub-command: the rest of the loop takes the last error.
abbrev after_sub :
    (Option Error → World → Attempt × World) → Option Error → Outcome × World → Attempt × World
after_sub rest last_error (done, w) = rest last_error w
after_sub rest last_error (failed e, w) = rest (some e) w
after_sub rest last_error (waiting, w) = (stuck, w)

-- What the loop does after an attempt.
abbrev after_attempt : (Option Error → World → Attempt × World) → Attempt × World → Attempt × World
after_attempt rest (stuck, w) = (stuck, w)
after_attempt rest (ended none, w) = (ended none, w)
after_attempt rest (ended (some e), w) = rest (some e) w

-- What the loop does after a command of the except script.
abbrev after_logged : (World → Outcome × World) → Outcome × World → Outcome × World
after_logged rest (waiting, w) = (waiting, w)
after_logged rest (done, w) = rest w
after_logged rest (failed e, w) = rest w

module _ (env : Env) where
  -- The switch on the type of a sub-command; it has no case for a try command.
  unfoldable pub run_sub : Command → World → Outcome × World
  run_sub (send v) w = handle_send v w
  run_sub (expect v) w = handle_expect env v w
  run_sub (monitor v) w = handle_monitor env v w
  run_sub (try name block scripts) w = (done, w)

  -- The loop over the main script's commands. Each `break` leaves the switch, not the loop, so the
  -- commands behind a failed one are run too, and the error kept is the last.
  unfoldable pub run_main : List Command → Option Error → World → Attempt × World
  run_main [] last_error w = (ended last_error, w)
  run_main (c ∷ cs) last_error w = after_sub (run_main cs) last_error (run_sub c w)

  -- The attempts that are left. An attempt begins with no error.
  unfoldable pub run_attempts : ℕ → List Command → Option Error → World → Attempt × World
  run_attempts zero commands last_error w = (ended last_error, w)
  run_attempts (suc left) commands last_error w =
      after_attempt (run_attempts left commands) (run_main commands none w)

  -- The except script: its errors are logged and dropped.
  unfoldable pub run_except : List Command → World → Outcome × World
  run_except [] w = (done, w)
  run_except (c ∷ cs) w = after_logged (run_except cs) (run_sub c w)

  -- What follows the except script, or its absence.
  after_except : Bytes → Error → Outcome × World → Outcome × World
  after_except name e (waiting, w) = (waiting, w)
  after_except name e (_, w) = (failed (try_failed name e), w)

  run_except_script : TryBlock → Error → Result Error (List Command) → World → Outcome × World
  unfolding after_except
  run_except_script block e (err f) w = (failed (parse_except_failed block.except f), w)
  run_except_script block e (ok cs) w = after_except block.name e (run_except cs w)

  find_except : TryBlock → Error → Option NamedScript → World → Outcome × World
  unfolding run_except_script
  find_except block e none w = (failed (except_not_found block.except block.name), w)
  find_except block e (some s) w = run_except_script block e (parse_script s.content) w

  -- After the attempts.
  settle : TryBlock → GoMap NamedScript → Attempt × World → Outcome × World
  unfolding find_except
  settle block script_map (stuck, w) = (waiting, w)
  settle block script_map (ended none, w) = (done, w)
  settle block script_map (ended (some e), w) =
      if str_eq block.except []
      then (failed (try_failed block.name e), w)
      else find_except block e (lookup block.except script_map) w

  run_script : TryBlock → GoMap NamedScript → Result Error (List Command) → World → Outcome × World
  unfolding settle
  run_script block script_map (err f) w = (failed (parse_failed block.script f), w)
  run_script block script_map (ok commands) w =
      let max_retries = if block.retry then 2 else 1 in
      settle block script_map (run_attempts max_retries commands none w)

  find_script : TryBlock → GoMap NamedScript → Option NamedScript → World → Outcome × World
  unfolding run_script
  find_script block script_map none w = (failed (script_not_found block.script block.name), w)
  find_script block script_map (some s) w = run_script block script_map (parse_script s.content) w

  unfoldable pub handle_try : TryBlock → GoMap NamedScript → World → Outcome × World
  unfolding find_script
  handle_try block script_map w = find_script block script_map (lookup block.script script_map) w

-- ===== src/Serial/Try/Ends.antt =====
-- A try block ends as long as its timers fire.
use mqtt_home_automation.Base.{
  ℕ, ◌+◌, ◌≤◌, ◌≡◌, refl, Bool, true, false, List, [], Option, none, some, arith, length,
  Bool-cases, inl, inr, if◌then◌else◌,
}
use mqtt_home_automation.Base.Result.{Result, ok, err}
use mqtt_home_automation.Text.{Bytes, str_eq}
use mqtt_home_automation.Maps.{GoMap, lookup}
use mqtt_home_automation.Serial.Config.{Command, NamedScript, TryBlock}
use mqtt_home_automation.Serial.Errors.{Error}
use mqtt_home_automation.Serial.Port.{Event, World, Outcome, done, waiting, failed, Env}
use mqtt_home_automation.Serial.Port.Timers.{Takes, Takes-none, Takes-then, Takes-le, Takes-stop}
use mqtt_home_automation.Serial.Script.{parse_script}
use mqtt_home_automation.Serial.Try.{
  Attempt, ended, stuck, run_attempts, run_except, after_except, run_except_script, find_except,
  settle, run_script, find_script, handle_try,
}
use mqtt_home_automation.Serial.Try.Attempts.{
  rounds, parsed_length, script_length, AllTimed, IsTimedScript, run_attempts-Takes,
  run_except-Takes,
}

module _ (env : Env) where
  after_except-Takes :
      (n : ℕ) (before : List Event) (name : Bytes) (e : Error) (r : Outcome × World)
      → Takes n before (r.0 ≡ waiting) r.1.events
      → Takes n before
          ((after_except env name e r).0 ≡ waiting)
          (after_except env name e r).1.events
  unfolding after_except
  after_except-Takes n before name e (done, w) t = record { ends = λ h x. cc x; left = t.left }
  after_except-Takes n before name e (failed f, w) t = record { ends = λ h x. cc x; left = t.left }
  after_except-Takes n before name e (waiting, w) t = t

  run_except_script-Takes :
      (block : TryBlock) (e : Error) (r : Result Error (List Command)) (w : World)
      → AllTimed env r
      → Takes
          (parsed_length r)
          w.events
          ((run_except_script env block e r w).0 ≡ waiting)
          (run_except_script env block e r w).1.events
  unfolding run_except_script
  run_except_script-Takes block e (err f) w h = Takes-none 0 w.events (λ x. cc x)
  run_except_script-Takes block e (ok cs) w h =
      after_except-Takes (length cs) w.events block.name e (run_except env cs w)
        (run_except-Takes env cs w h)

  find_except-Takes :
      (block : TryBlock) (e : Error) (o : Option NamedScript) (w : World)
      → IsTimedScript env o
      → Takes
          (script_length o)
          w.events
          ((find_except env block e o w).0 ≡ waiting)
          (find_except env block e o w).1.events
  unfolding find_except
  find_except-Takes block e none w h = Takes-none 0 w.events (λ x. cc x)
  find_except-Takes block e (some s) w h =
      run_except_script-Takes block e (parse_script s.content) w h

  settle-Takes :
      (n : ℕ) (before : List Event) (block : TryBlock) (scripts : GoMap NamedScript)
      (r : Attempt × World)
      → IsTimedScript env (lookup block.except scripts)
      → Takes n before (r.0 ≡ stuck) r.1.events
      → Takes
          (n + script_length (lookup block.except scripts))
          before
          ((settle env block scripts r).0 ≡ waiting)
          (settle env block scripts r).1.events
  unfolding settle
  settle-Takes n before block scripts (stuck, w) h t = Takes-stop n _ before w.events t refl
  settle-Takes n before block scripts (ended none, w) h t =
      Takes-then n _ before w.events w.events t (Takes-none _ w.events {Waits = ⊥} (λ x. x))
        (λ x. absurd (cc x))
  settle-Takes n before block scripts (ended (some e), w) h t =
      elim (Bool-cases (str_eq block.except [])) [
        | inl b ↦ rw b (
            Takes-then n _ before w.events w.events t (Takes-none _ w.events {Waits = ⊥} (λ x. x))
              (λ x. absurd (cc x)))
        | inr b ↦ rw b (
            Takes-then n _ before w.events _ t
              (find_except-Takes block e (lookup block.except scripts) w h) (λ x. inr x))
      ]

  tries_le : (retry : Bool) (n : ℕ) → rounds (if retry then 2 else 1) n ≤ rounds 2 n
  tries_le true n = omega arith
  tries_le false n = omega arith

  run_script-Takes :
      (block : TryBlock) (scripts : GoMap NamedScript) (r : Result Error (List Command)) (w : World)
      → AllTimed env r
      → IsTimedScript env (lookup block.except scripts)
      → Takes
          (rounds 2 (parsed_length r) + script_length (lookup block.except scripts))
          w.events
          ((run_script env block scripts r w).0 ≡ waiting)
          (run_script env block scripts r w).1.events
  unfolding run_script
  run_script-Takes block scripts (err f) w h g = Takes-none _ w.events (λ x. cc x)
  run_script-Takes block scripts (ok cs) w h g =
      settle-Takes (rounds 2 (length cs)) w.events block scripts
        (run_attempts env (if block.retry then 2 else 1) cs none w) g
        (Takes-le _ _ w.events _ (tries_le block.retry (length cs))
          (run_attempts-Takes env (if block.retry then 2 else 1) cs none w h))

  find_script-Takes :
      (block : TryBlock) (scripts : GoMap NamedScript) (o : Option NamedScript) (w : World)
      → IsTimedScript env o
      → IsTimedScript env (lookup block.except scripts)
      → Takes
          (rounds 2 (script_length o) + script_length (lookup block.except scripts))
          w.events
          ((find_script env block scripts o w).0 ≡ waiting)
          (find_script env block scripts o w).1.events
  unfolding find_script
  find_script-Takes block scripts none w h g = Takes-none _ w.events (λ x. cc x)
  find_script-Takes block scripts (some s) w h g =
      run_script-Takes block scripts (parse_script s.content) w h g

  pub handle_try-Takes :
      (block : TryBlock) (scripts : GoMap NamedScript) (w : World)
      → IsTimedScript env (lookup block.script scripts)
      → IsTimedScript env (lookup block.except scripts)
      → Takes
          (rounds 2 (script_length (lookup block.script scripts))
            + script_length (lookup block.except scripts))
          w.events
          ((handle_try env block scripts w).0 ≡ waiting)
          (handle_try env block scripts w).1.events
  unfolding handle_try
  handle_try-Takes block scripts w h g =
      find_script-Takes block scripts (lookup block.script scripts) w h g

-- ===== src/Serial/Try/Attempts.antt =====
-- The loops over the commands of a try block end as long as their timers fire.
use mqtt_home_automation.Base.{
  ℕ, zero, suc, ◌+◌, ◌≡◌, refl, List, [], ◌∷◌, Option, none, some, arith, All, length, inr,
}
use mqtt_home_automation.Base.Result.{Result, ok, err}
use mqtt_home_automation.Serial.Config.{Command, send, expect, monitor, try, NamedScript}
use mqtt_home_automation.Serial.Errors.{Error}
use mqtt_home_automation.Serial.Port.{Event, World, Outcome, done, waiting, failed, Env}
use mqtt_home_automation.Serial.Port.Timers.{
  Takes, Takes-none, Takes-then, Takes-le, Takes-stop, handle_send-Takes,
}
use mqtt_home_automation.Serial.Expect.Ends.{handle_expect-Takes}
use mqtt_home_automation.Serial.Monitor.{parse_limits}
use mqtt_home_automation.Serial.Monitor.Ends.{HasNoCount, handle_monitor-Takes}
use mqtt_home_automation.Serial.Script.{parse_script}
use mqtt_home_automation.Serial.Try.{
  Attempt, ended, stuck, after_sub, after_attempt, after_logged, run_sub, run_main, run_attempts,
  run_except,
}

-- So many rounds of n.
abbrev pub rounds : ℕ → ℕ → ℕ
rounds zero n = 0
rounds (suc k) n = n + rounds k n

-- The commands of a script, if it is there and parsed.
abbrev pub parsed_length : Result Error (List Command) → ℕ
parsed_length (err e) = 0
parsed_length (ok cs) = length cs

abbrev pub script_length : Option NamedScript → ℕ
script_length none = 0
script_length (some s) = parsed_length (parse_script s.content)

module _ (env : Env) where
  -- No monitor command that counts lines.
  abbrev pub IsTimedSub : Command → Type 0
  IsTimedSub (send v) = Unit
  IsTimedSub (expect v) = Unit
  IsTimedSub (monitor v) = HasNoCount (parse_limits env v)
  IsTimedSub (try name block scripts) = Unit

  abbrev pub AllTimed : Result Error (List Command) → Type 0
  AllTimed (err e) = Unit
  AllTimed (ok cs) = All IsTimedSub cs

  abbrev pub IsTimedScript : Option NamedScript → Type 0
  IsTimedScript none = Unit
  IsTimedScript (some s) = AllTimed (parse_script s.content)

  run_sub-Takes :
      (c : Command) (w : World)
      → IsTimedSub c
      → Takes 1 w.events ((run_sub env c w).0 ≡ waiting) (run_sub env c w).1.events
  unfolding run_sub
  run_sub-Takes (send v) w h = Takes-le 0 1 w.events _ (omega arith) (handle_send-Takes v w)
  run_sub-Takes (expect v) w h = handle_expect-Takes env v w
  run_sub-Takes (monitor v) w h = handle_monitor-Takes env v w h
  run_sub-Takes (try name block scripts) w h = Takes-none 1 w.events (λ x. cc x)

  after_sub-Takes :
      (n m : ℕ) (before : List Event) (rest : Option Error → World → Attempt × World)
      (last_error : Option Error) (r : Outcome × World)
      → Takes n before (r.0 ≡ waiting) r.1.events
      → ((l : Option Error) (w : World)
          → Takes m w.events ((rest l w).0 ≡ stuck) (rest l w).1.events)
      → Takes
          (n + m)
          before
          ((after_sub rest last_error r).0 ≡ stuck)
          (after_sub rest last_error r).1.events
  after_sub-Takes n m before rest last_error (done, w) t f =
      Takes-then n m before w.events _ t (f last_error w) (λ x. inr x)
  after_sub-Takes n m before rest last_error (failed e, w) t f =
      Takes-then n m before w.events _ t (f (some e) w) (λ x. inr x)
  after_sub-Takes n m before rest last_error (waiting, w) t f =
      Takes-stop n m before w.events t refl

  run_main-Takes :
      (cs : List Command) (last_error : Option Error) (w : World)
      → All IsTimedSub cs
      → Takes
          (length cs)
          w.events
          ((run_main env cs last_error w).0 ≡ stuck)
          (run_main env cs last_error w).1.events
  unfolding run_main
  run_main-Takes [] last_error w h = Takes-none 0 w.events (λ x. cc x)
  run_main-Takes (c ∷ cs) last_error w (hc, h) =
      Takes-le (1 + length cs) (length (c ∷ cs)) w.events _ (omega arith) (
        after_sub-Takes 1 (length cs) w.events (run_main env cs) last_error (run_sub env c w)
          (run_sub-Takes c w hc) (λ l w'. run_main-Takes cs l w' h))

  after_attempt-Takes :
      (n m : ℕ) (before : List Event) (rest : Option Error → World → Attempt × World)
      (r : Attempt × World)
      → Takes n before (r.0 ≡ stuck) r.1.events
      → ((l : Option Error) (w : World)
          → Takes m w.events ((rest l w).0 ≡ stuck) (rest l w).1.events)
      → Takes (n + m) before ((after_attempt rest r).0 ≡ stuck) (after_attempt rest r).1.events
  after_attempt-Takes n m before rest (ended none, w) t f =
      Takes-then n m before w.events w.events t (Takes-none m w.events {Waits = ⊥} (λ x. x))
        (λ x. absurd (cc x))
  after_attempt-Takes n m before rest (ended (some e), w) t f =
      Takes-then n m before w.events _ t (f (some e) w) (λ x. inr x)
  after_attempt-Takes n m before rest (stuck, w) t f = Takes-stop n m before w.events t refl

  pub run_attempts-Takes :
      (k : ℕ) (cs : List Command) (last_error : Option Error) (w : World)
      → All IsTimedSub cs
      → Takes
          (rounds k (length cs))
          w.events
          ((run_attempts env k cs last_error w).0 ≡ stuck)
          (run_attempts env k cs last_error w).1.events
  unfolding run_attempts
  run_attempts-Takes zero cs last_error w h = Takes-none 0 w.events (λ x. cc x)
  run_attempts-Takes (suc k) cs last_error w h =
      after_attempt-Takes (length cs) (rounds k (length cs)) w.events (run_attempts env k cs)
        (run_main env cs none w) (run_main-Takes cs none w h)
        (λ l w'. run_attempts-Takes k cs l w' h)

  after_logged-Takes :
      (n m : ℕ) (before : List Event) (rest : World → Outcome × World) (r : Outcome × World)
      → Takes n before (r.0 ≡ waiting) r.1.events
      → ((w : World) → Takes m w.events ((rest w).0 ≡ waiting) (rest w).1.events)
      → Takes (n + m) before ((after_logged rest r).0 ≡ waiting) (after_logged rest r).1.events
  after_logged-Takes n m before rest (done, w) t f =
      Takes-then n m before w.events _ t (f w) (λ x. inr x)
  after_logged-Takes n m before rest (failed e, w) t f =
      Takes-then n m before w.events _ t (f w) (λ x. inr x)
  after_logged-Takes n m before rest (waiting, w) t f = Takes-stop n m before w.events t refl

  pub run_except-Takes :
      (cs : List Command) (w : World)
      → All IsTimedSub cs
      → Takes
          (length cs)
          w.events
          ((run_except env cs w).0 ≡ waiting)
          (run_except env cs w).1.events
  unfolding run_except
  run_except-Takes [] w h = Takes-none 0 w.events (λ x. cc x)
  run_except-Takes (c ∷ cs) w (hc, h) =
      Takes-le (1 + length cs) (length (c ∷ cs)) w.events _ (omega arith) (
        after_logged-Takes 1 (length cs) w.events (run_except env cs) (run_sub env c w)
          (run_sub-Takes c w hc) (λ w'. run_except-Takes cs w' h))

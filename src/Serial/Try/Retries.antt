-- ===== src/Serial/Try/Retries.antt =====
-- How often a try command runs its script, and how it ends.
use mqtt_home_automation.Base.{
  ◌≡◌, ◌≢◌, ◌↔◌, ◌⊎◌, inl, inr, refl, ap, Bool, true, false, List, [], Option, none, some,
  if◌then◌else◌, Bool-cases,
}
use mqtt_home_automation.Base.Result.{Result, ok, err}
use mqtt_home_automation.Text.{str_eq}
use mqtt_home_automation.Maps.{GoMap, lookup}
use mqtt_home_automation.Serial.Config.{Command, NamedScript, TryBlock}
use mqtt_home_automation.Serial.Errors.{Error, try_failed}
use mqtt_home_automation.Serial.Script.{parse_script}
use mqtt_home_automation.Serial.Port.{World, Outcome, done, waiting, failed, Env}
use mqtt_home_automation.Serial.Try.{
  Attempt, ended, stuck, run_main, run_attempts, run_except, after_attempt, after_except,
  run_except_script, find_except, settle, handle_try,
}

-- The script of a block, found and parsed.
pub record Runs (block : TryBlock) (script_map : GoMap NamedScript) (cs : List Command)
    : Type 0 where
  pub script : NamedScript
  pub found : lookup block.script script_map ≡ some script
  pub parsed : parse_script script.content ≡ ok cs

module _ (env : Env) (block : TryBlock) (script_map : GoMap NamedScript) (cs : List Command) where
  -- One attempt, from a world.
  abbrev pub attempt : World → Attempt × World
  attempt w = run_main env cs none w

  again : (r : Attempt × World) → after_attempt (run_attempts env 0 cs) r ≡ r
  unfolding run_attempts
  again (stuck, w) = refl
  again (ended none, w) = refl
  again (ended (some e), w) = refl

  -- The attempts after a first one whose block says retry.
  abbrev retried : Attempt × World → Attempt × World
  retried (stuck, w) = (stuck, w)
  retried (ended none, w) = (ended none, w)
  retried (ended (some e), w) = attempt w

  twice : (r : Attempt × World) → after_attempt (run_attempts env 1 cs) r ≡ retried r
  unfolding run_attempts
  twice (stuck, w) = refl
  twice (ended none, w) = refl
  twice (ended (some e), w) = again (attempt w)

  -- What handleTry settles: the second attempt if the first failed and the block says retry.
  abbrev attempts_of : Bool → Attempt × World → Attempt × World
  attempts_of true r = retried r
  attempts_of false r = r

  run_attempts-attempts_of :
      (retry : Bool) (w : World)
      → run_attempts env (if retry then 2 else 1) cs none w ≡ attempts_of retry (attempt w)
  unfolding run_attempts
  run_attempts-attempts_of true w = twice (attempt w)
  run_attempts-attempts_of false w = again (attempt w)

  handle_try-settle :
      (w : World)
      → Runs block script_map cs
      → handle_try env block script_map w
        ≡ settle env block script_map (attempts_of block.retry (attempt w))
  unfolding handle_try
  handle_try-settle w r =
      rw (r.found, r.parsed)
        (ap (settle env block script_map) (run_attempts-attempts_of block.retry w))

  after_except-ne-done :
      (e : Error) (r : Outcome × World) → (after_except env block.name e r).0 ≢ done
  unfolding after_except
  after_except-ne-done e (waiting, w) = λ x. cc
  after_except-ne-done e (done, w) = λ x. cc
  after_except-ne-done e (failed f, w) = λ x. cc

  run_except_script-ne-done :
      (e : Error) (r : Result Error (List Command)) (w : World)
      → (run_except_script env block e r w).0 ≢ done
  unfolding run_except_script
  run_except_script-ne-done e (err f) w = λ x. cc
  run_except_script-ne-done e (ok ds) w = after_except-ne-done e (run_except env ds w)

  find_except-ne-done :
      (e : Error) (o : Option NamedScript) (w : World) → (find_except env block e o w).0 ≢ done
  unfolding find_except
  find_except-ne-done e none w = λ x. cc
  find_except-ne-done e (some s) w = run_except_script-ne-done e (parse_script s.content) w

  settle_done :
      (r : Attempt × World) → ((settle env block script_map r).0 ≡ done) ↔ (r.0 ≡ ended none)
  unfolding settle
  settle_done (stuck, w) = (λ x. cc, λ x. cc)
  settle_done (ended none, w) = (λ x. refl, λ x. refl)
  settle_done (ended (some e), w) = elim (Bool-cases (str_eq block.except [])) [
    | inl b ↦ rw b (λ x. cc, λ x. cc)
    | inr b ↦ rw b (λ x. absurd (find_except-ne-done e _ w x), λ x. cc)
  ]

  -- The second attempt is made, and has no error.
  abbrev pub SecondSucceeds : World → Type 0
  SecondSucceeds w =
      (block.retry ≡ true)
      × (e : Error) × ((attempt w).0 ≡ ended (some e))
      × ((attempt (attempt w).1).0 ≡ ended none)

  attempts_of-none :
      (retry : Bool) (r : Attempt × World)
      → ((attempts_of retry r).0 ≡ ended none) ↔ (
          (r.0 ≡ ended none)
          ⊎ ((retry ≡ true)
              × (e : Error) × (r.0 ≡ ended (some e))
              × ((attempt r.1).0 ≡ ended none)))
  attempts_of-none false r = (inl, elim [ inl x ↦ x | inr y ↦ cc (y.0) ])
  attempts_of-none true (stuck, w) = (λ x. cc, elim [ inl x ↦ x | inr y ↦ cc (y.2) ])
  attempts_of-none true (ended none, w) = (λ x. inl refl, λ x. refl)
  attempts_of-none true (ended (some e), w) =
      (λ x. inr (refl, e, refl, x), elim [ inl x ↦ cc | inr y ↦ y.3 ])

  -- A try command whose script is found and parsed succeeds exactly if the first attempt ends with
  -- no error, or the block says retry, the first attempt ends with an error and the second ends with
  -- none. An except script never makes it succeed.
  pub handle_try_done :
      (w : World)
      → Runs block script_map cs
      → ((handle_try env block script_map w).0 ≡ done)
        ↔ (((attempt w).0 ≡ ended none) ⊎ SecondSucceeds w)
  handle_try_done w r =
      let a = settle_done (attempts_of block.retry (attempt w)) in
      let b = attempts_of-none block.retry (attempt w) in
      rw (handle_try-settle w r) (λ x. b.0 (a.0 x), λ x. a.1 (b.1 x))

  -- A try command whose script is found and parsed, whose attempts end with an error, and which has
  -- no except script, fails with the last error of the last attempt, and nothing more happens.
  pub handle_try_fails :
      (w w1 : World) (e : Error)
      → Runs block script_map cs
      → attempts_of block.retry (attempt w) ≡ (ended (some e), w1)
      → str_eq block.except [] ≡ true
      → handle_try env block script_map w ≡ (failed (try_failed block.name e), w1)
  unfolding settle
  handle_try_fails w w1 e r h b = rw (handle_try-settle w r, h) (rw b)

  -- A try command whose script is found and parsed, whose attempts end with an error, and whose
  -- except script is found, parsed and comes to its end, fails with the last error of the last
  -- attempt. The except script is run first; its own errors change nothing.
  pub handle_try_excepts :
      (w w1 w2 : World) (e : Error) (s : NamedScript) (ds : List Command)
      → Runs block script_map cs
      → attempts_of block.retry (attempt w) ≡ (ended (some e), w1)
      → str_eq block.except [] ≡ false
      → lookup block.except script_map ≡ some s
      → parse_script s.content ≡ ok ds
      → run_except env ds w1 ≡ (done, w2)
      → handle_try env block script_map w ≡ (failed (try_failed block.name e), w2)
  unfolding settle
  handle_try_excepts w w1 w2 e s ds r h b f p x =
      rw (handle_try-settle w r, h)
        (rw (b, f, find_except) (rw (p, run_except_script) (rw (x, after_except))))

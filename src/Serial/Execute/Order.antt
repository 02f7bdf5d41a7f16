-- ===== src/Serial/Execute/Order.antt =====
-- Where a script that fails was stopped, and what a script that ends has written.
use mqtt_home_automation.Base.{
  ◌≡◌, refl, ap, sym, ◌∙◌, List, [], ◌∷◌, ◌++◌, append-nil, append_assoc, All,
}
use mqtt_home_automation.Serial.Config.{Command, send, expect, monitor, try}
use mqtt_home_automation.Serial.Errors.{Error}
use mqtt_home_automation.Serial.Port.{World, Outcome, done, waiting, failed, Env}
use mqtt_home_automation.Serial.Script.Print.{IsPlain}
use mqtt_home_automation.Serial.Try.Sends.{
  sends, sends-cons, tx-handle_send, tx-handle_expect, tx-handle_monitor,
}
use mqtt_home_automation.Serial.Execute.{run_command, execute_script}

module _ (env : Env) where
  -- A script stopped at a command: those in front of it succeeded, and it failed.
  pub record StoppedAt (cs : List Command) (e : Error) (w w' : World) : Type 0 where
    pub before : List Command
    pub at : Command
    pub after : List Command
    pub reached : World
    pub splits : cs ≡ before ++ at ∷ after
    pub succeeded : execute_script env before w ≡ (done, reached)
    pub fails : run_command env at reached ≡ (failed e, w')

  -- A script that fails was stopped at one command: all commands in front of it succeeded, its error
  -- is the script's, and no command behind it was run.
  pub execute_script_stops :
      (cs : List Command) (e : Error) (w w' : World)
      → execute_script env cs w ≡ (failed e, w')
      → StoppedAt cs e w w'
  unfolding execute_script
  execute_script_stops [] e w w' h = absurd (cc h)
  execute_script_stops (c ∷ cs) e w w' h = step (run_command env c w) refl (execute_script_stops cs)
    where
      step :
          (s : Outcome × World)
          → run_command env c w ≡ s
          → ((f : Error) (w1 w2 : World)
              → execute_script env cs w1 ≡ (failed f, w2)
              → StoppedAt cs f w1 w2)
          → StoppedAt (c ∷ cs) e w w'
      step (done, w1) r rec =
          let s = rec e w1 w' (rw (r, execute_script) at h) in
          record {
            before = c ∷ s.before;
            at = s.at;
            after = s.after;
            reached = s.reached;
            splits = ap (λ (l : List Command). c ∷ l) s.splits;
            succeeded = rw (r, execute_script) s.succeeded;
            fails = s.fails;
          }
      step (failed f, w1) r rec = record {
        before = [];
        at = c;
        after = cs;
        reached = w;
        splits = refl;
        succeeded = refl;
        fails = r ∙ (rw (r, execute_script) at h);
      }
      step (waiting, w1) r rec = absurd (let x : _ = rw (r, execute_script) at h in cc x)

  tx-run_command :
      (c : Command) (w w' : World)
      → IsPlain c
      → run_command env c w ≡ (done, w')
      → w'.tx ≡ w.tx ++ sends (c ∷ [])
  unfolding run_command
  tx-run_command (send v) w w' h e = tx-handle_send v w w' e
  tx-run_command (expect v) w w' h e =
      ap (λ (p : Outcome × World). p.1.tx) (sym e)
      ∙ tx-handle_expect env v w
      ∙ sym (append-nil w.tx)
  tx-run_command (monitor v) w w' h e =
      ap (λ (p : Outcome × World). p.1.tx) (sym e)
      ∙ tx-handle_monitor env v w
      ∙ sym (append-nil w.tx)
  tx-run_command (try _ _ _) w w' h e = absurd h

  -- Commands that a script can say, no try command among them, that end well have written the data
  -- of all send commands, in order, as formatSendValue gives them.
  pub tx-execute_script :
      (cs : List Command) (w w' : World)
      → All IsPlain cs
      → execute_script env cs w ≡ (done, w')
      → w'.tx ≡ w.tx ++ sends cs
  unfolding execute_script
  tx-execute_script [] w w' h e =
      ap (λ (p : Outcome × World). p.1.tx) (sym e) ∙ sym (append-nil w.tx)
  tx-execute_script (c ∷ cs) w w' (hc, h) e =
      step (run_command env c w) refl (λ w1. tx-execute_script cs w1 w' h)
    where
      step :
          (s : Outcome × World)
          → run_command env c w ≡ s
          → ((w1 : World) → execute_script env cs w1 ≡ (done, w') → w'.tx ≡ w1.tx ++ sends cs)
          → w'.tx ≡ w.tx ++ sends (c ∷ cs)
      step (done, w1) r rec =
          let a : w1.tx ≡ w.tx ++ sends (c ∷ []) = tx-run_command c w w1 hc r in
          cc (
            a,
            rec w1 (rw (r, execute_script) at e),
            append_assoc w.tx (sends (c ∷ [])) (sends cs),
            sends-cons c cs,
          )
      step (failed f, w1) r rec = absurd (let x : _ = rw (r, execute_script) at e in cc x)
      step (waiting, w1) r rec = absurd (let x : _ = rw (r, execute_script) at e in cc x)

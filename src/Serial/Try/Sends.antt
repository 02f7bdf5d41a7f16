-- ===== src/Serial/Try/Sends.antt =====
-- What the attempts of a try command hand to the port, and what single commands write.
use mqtt_home_automation.Base.{
  ◌≡◌, refl, ap, sym, ◌∙◌, List, [], ◌∷◌, ◌++◌, append-nil, append_assoc, Option, some, arith,
}
use mqtt_home_automation.Text.{Bytes}
use mqtt_home_automation.Serial.Config.{Command, send, expect, monitor, try}
use mqtt_home_automation.Serial.Errors.{Error}
use mqtt_home_automation.Serial.Pattern.{format_send_value}
use mqtt_home_automation.Serial.Port.{World, Outcome, done, waiting, failed, Env, handle_send}
use mqtt_home_automation.Serial.Expect.{handle_expect}
use mqtt_home_automation.Serial.Monitor.{handle_monitor}
use mqtt_home_automation.Serial.Try.{Attempt, ended, run_sub, run_main}

-- The data of the send commands of a script.
abbrev pub sends : List Command → List Bytes
sends [] = []
sends (send v ∷ cs) = format_send_value v ∷ sends cs
sends (_ ∷ cs) = sends cs

-- A send command that succeeds has written its data.
pub tx-handle_send :
    (v : Bytes) (w w' : World)
    → handle_send v w ≡ (done, w')
    → w'.tx ≡ w.tx ++ format_send_value v ∷ []
unfolding handle_send format_send_value
tx-handle_send v w w' h = ground (arith, h)

handed-handle_send :
    (v : Bytes) (w : World) → (handle_send v w).1.handed ≡ w.handed ++ format_send_value v ∷ []
unfolding handle_send format_send_value
handed-handle_send v w = ground arith

handed-handle_expect :
    (env : Env) (v : Bytes) (w : World) → (handle_expect env v w).1.handed ≡ w.handed
unfolding handle_expect
handed-handle_expect env v w = ground arith

handed-handle_monitor :
    (env : Env) (v : Bytes) (w : World) → (handle_monitor env v w).1.handed ≡ w.handed
unfolding handle_monitor
handed-handle_monitor env v w = ground arith

pub tx-handle_expect : (env : Env) (v : Bytes) (w : World) → (handle_expect env v w).1.tx ≡ w.tx
unfolding handle_expect
tx-handle_expect env v w = ground arith

pub tx-handle_monitor : (env : Env) (v : Bytes) (w : World) → (handle_monitor env v w).1.tx ≡ w.tx
unfolding handle_monitor
tx-handle_monitor env v w = ground arith

pub sends-cons : (c : Command) (cs : List Command) → sends (c ∷ cs) ≡ sends (c ∷ []) ++ sends cs
sends-cons (send v) cs = refl
sends-cons (expect v) cs = refl
sends-cons (monitor v) cs = refl
sends-cons (try _ _ _) cs = refl

module _ (env : Env) where
  -- A sub-command hands what it sends to the port's Write, however it ends.
  handed-run_sub :
      (c : Command) (w : World) → (run_sub env c w).1.handed ≡ w.handed ++ sends (c ∷ [])
  unfolding run_sub
  handed-run_sub (send v) w = handed-handle_send v w
  handed-run_sub (expect v) w = handed-handle_expect env v w ∙ sym (append-nil w.handed)
  handed-run_sub (monitor v) w = handed-handle_monitor env v w ∙ sym (append-nil w.handed)
  handed-run_sub (try _ _ _) w = sym (append-nil w.handed)

  -- An attempt that ends has called the port's Write with the data of every send command of the
  -- script, in order, whatever commands failed on the way, sends whose Write failed among them.
  pub handed-run_main :
      (cs : List Command) (last r : Option Error) (w w' : World)
      → run_main env cs last w ≡ (ended r, w')
      → w'.handed ≡ w.handed ++ sends cs
  unfolding run_main
  handed-run_main [] last r w w' h =
      ap (λ (p : Attempt × World). p.1.handed) (sym h) ∙ sym (append-nil w.handed)
  handed-run_main (c ∷ cs) last r w w' h = step (run_sub env c w) refl (handed-run_main cs)
    where
      joined :
          (w1 : World)
          → w1.handed ≡ w.handed ++ sends (c ∷ [])
          → w'.handed ≡ w1.handed ++ sends cs
          → w'.handed ≡ w.handed ++ sends (c ∷ cs)
      joined w1 a b = cc (a, b, append_assoc w.handed (sends (c ∷ [])) (sends cs), sends-cons c cs)

      step :
          (s : Outcome × World)
          → run_sub env c w ≡ s
          → ((l r : Option Error) (w1 w2 : World)
              → run_main env cs l w1 ≡ (ended r, w2)
              → w2.handed ≡ w1.handed ++ sends cs)
          → w'.handed ≡ w.handed ++ sends (c ∷ cs)
      step (done, w1) e rec =
          joined w1 (rw e at (handed-run_sub c w)) (rec last r w1 w' (rw (e, run_main) at h))
      step (failed f, w1) e rec =
          joined w1 (rw e at (handed-run_sub c w)) (rec (some f) r w1 w' (rw (e, run_main) at h))
      step (waiting, w1) e rec = absurd (let x : _ = rw (e, run_main) at h in cc x)

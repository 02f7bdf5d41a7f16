-- ===== src/Serial/DryRun/Agreement.antt =====
-- What a dry run prints as sent is what a real run sends.
use mqtt_home_automation.Base.{
  ℕ, ◌≡◌, refl, ap, sym, ◌∙◌, Bool, true, false, List, [], ◌∷◌, ◌++◌, append-nil, append_assoc,
  Option, All, Bool-cases, inl, inr,
}
use mqtt_home_automation.Base.Result.{Result, ok, err, ◌>>=◌, ok-injective, err-ne-ok}
use mqtt_home_automation.Text.{Bytes, split}
use mqtt_home_automation.Serial.Config.{Command, send, expect, monitor, try}
use mqtt_home_automation.Serial.Errors.{Error, not_in_input}
use mqtt_home_automation.Serial.Pattern.{
  ExpectPattern, format_send_value, parse_expect_pattern, check_dry_run_match,
}
use mqtt_home_automation.Serial.Port.{World, done, Env}
use mqtt_home_automation.Serial.Script.Print.{IsPlain}
use mqtt_home_automation.Serial.Try.Sends.{sends}
use mqtt_home_automation.Serial.Execute.{execute_script}
use mqtt_home_automation.Serial.Execute.Order.{tx-execute_script}
use mqtt_home_automation.Serial.DryRun.{
  Dry, search_from, search_lines, show_from, show_lines, dry_send, found_or, dry_pattern,
  dry_expect, dry_commands, execute_dry_run,
}

tx-search_from :
    (ep : ExpectPattern) (ls : List Bytes) (d : Dry) → (search_from ep ls d).1.tx ≡ d.tx
unfolding search_from
tx-search_from ep [] d = refl
tx-search_from ep (l ∷ ls) d = elim (Bool-cases (check_dry_run_match ep l)) [
  | inl e ↦ rw e
  | inr e ↦ rw e (tx-search_from ep ls _)
]

tx-show_from : (n : ℕ) (ls : List Bytes) (d : Dry) → (show_from n ls d).tx ≡ d.tx
unfolding show_from
tx-show_from ℕ.zero ls d = refl
tx-show_from (ℕ.suc n) [] d = refl
tx-show_from (ℕ.suc n) (l ∷ ls) d = tx-show_from n ls _

module _ (compile : Bytes → Option (Bytes → Bool)) (lines : List Bytes) where
  tx-dry_expect :
      (v : Bytes) (d d' : Dry) → dry_expect compile lines v false d ≡ ok d' → d'.tx ≡ d.tx
  unfolding dry_expect
  tx-dry_expect v d d' h = parsed (parse_expect_pattern compile v) h
    where
      found :
          (r : Bool × Dry)
          → r.1.tx ≡ d.tx
          → found_or compile lines (err (not_in_input v)) r ≡ ok d'
          → d'.tx ≡ d.tx
      found (true, x) s e = ap (λ (y : Dry). y.tx) (sym (ok-injective e)) ∙ s
      found (false, x) s e = absurd (err-ne-ok e)

      parsed :
          (r : Result Error ExpectPattern)
          → dry_pattern compile lines v false r d ≡ ok d'
          → d'.tx ≡ d.tx
      parsed (err f) e = absurd (err-ne-ok e)
      parsed (ok ep) e =
          found (search_lines ep lines d) (unfold search_lines in tx-search_from ep _ d) e

  tx-dry_commands :
      (cs : List Command) (d d' : Dry)
      → All IsPlain cs
      → dry_commands compile lines cs d ≡ ok d'
      → d'.tx ≡ d.tx ++ sends cs
  unfolding dry_commands
  tx-dry_commands [] d d' h e =
      ap (λ (y : Dry). y.tx) (sym (ok-injective e)) ∙ sym (append-nil d.tx)
  tx-dry_commands (send v ∷ cs) d d' (hc, h) e =
      tx-dry_commands cs (dry_send v d) d' h e
      ∙ (unfold dry_send in append_assoc d.tx (format_send_value v ∷ []) (sends cs))
  tx-dry_commands (expect v ∷ cs) d d' (hc, h) e =
      bound (dry_expect compile lines v false d) refl e (λ d1. tx-dry_commands cs d1 d' h)
    where
      bound :
          (r : Result Error Dry)
          → dry_expect compile lines v false d ≡ r
          → (r >>= dry_commands compile lines cs) ≡ ok d'
          → ((d1 : Dry) → dry_commands compile lines cs d1 ≡ ok d' → d'.tx ≡ d1.tx ++ sends cs)
          → d'.tx ≡ d.tx ++ sends cs
      bound (ok d1) r e' rec =
          rec d1 e' ∙ ap (λ (t : List Bytes). t ++ sends cs) (tx-dry_expect v d d1 r)
      bound (err f) r e' rec = absurd (err-ne-ok e')
  tx-dry_commands (monitor v ∷ cs) d d' (hc, h) e =
      tx-dry_commands cs (show_lines lines d) d' h e
      ∙ ap (λ (t : List Bytes). t ++ sends cs) (unfold show_lines in tx-show_from _ _ d)
  tx-dry_commands (try _ _ _ ∷ cs) d d' (hc, h) e = absurd hc

-- If both a dry run and a real run of the same commands end well, and these are commands that a
-- script can say, no try command among them, then the real run has written to the port exactly the
-- data that the dry run printed, in order.
pub execute_script-execute_dry_run :
    (env : Env) (input : Bytes) (cs : List Command) (d : Dry) (w w' : World)
    → All IsPlain cs
    → execute_dry_run env.compile input cs ≡ ok d
    → execute_script env cs w ≡ (done, w')
    → w'.tx ≡ w.tx ++ d.tx
unfolding execute_dry_run
execute_script-execute_dry_run env input cs d w w' h e r =
    let a : d.tx ≡ sends cs = tx-dry_commands env.compile (split input b'\n') cs _ d h e in
    tx-execute_script env cs w w' h r ∙ ap (λ (t : List Bytes). w.tx ++ t) (sym a)

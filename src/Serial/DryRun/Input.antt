-- ===== src/Serial/DryRun/Input.antt =====
-- A dry run goes through its input once, from the first line on.
use mqtt_home_automation.Base.{
  ℕ, zero, suc, ◌+◌, ◌≡◌, refl, ap, sym, subst, ◌∙◌, Bool, true, false, List, [], ◌∷◌, ◌++◌,
  append_assoc, Option, none, some, arith, length, length-append, drop, drop-append, Bool-cases,
  inl, inr,
}
use mqtt_home_automation.Base.Result.{Result, ok, err, ◌>>=◌}
use mqtt_home_automation.Text.{Bytes, split}
use mqtt_home_automation.Maps.{lookup}
use mqtt_home_automation.Serial.Config.{Command, send, expect, monitor, try, NamedScript, TryBlock}
use mqtt_home_automation.Serial.Errors.{Error, not_in_input}
use mqtt_home_automation.Serial.Pattern.{ExpectPattern, check_dry_run_match}
use mqtt_home_automation.Serial.Script.{parse_script}
use mqtt_home_automation.Serial.DryRun.{
  Dry, search_from, search_lines, show_from, show_lines, dry_send, found_or, dry_pattern,
  dry_expect, dry_sub, dry_script, dry_try, dry_commands, execute_dry_run,
}

-- The lines logged so far are the first lines of the input, and the position is behind them.
pub record IsAt (lines : List Bytes) (rest : List Bytes) (d : Dry) : Type 0 where
  pub splits : lines ≡ d.rx ++ rest
  pub position : d.line_index ≡ length d.rx

abbrev pub Reading : List Bytes → Dry → Type 0
Reading lines d = (rest : List Bytes) × IsAt lines rest d

read_on :
    (lines rest : List Bytes) (line : Bytes) (d : Dry)
    → IsAt lines (line ∷ rest) d
    → IsAt lines rest (record d { line_index = d.line_index + 1; rx = d.rx ++ line ∷ [] })
read_on lines rest line d h = record {
  splits = h.splits ∙ sym (append_assoc d.rx (line ∷ []) rest);
  position = omega (arith, h.position, length-append d.rx (line ∷ []));
}

rest_of : (lines rest : List Bytes) (d : Dry) → IsAt lines rest d → drop d.line_index lines ≡ rest
rest_of lines rest d h =
    ap (λ (k : ℕ). drop k lines) h.position
    ∙ ap (drop (length d.rx)) h.splits
    ∙ drop-append d.rx rest

search_from-Reading :
    (ep : ExpectPattern) (lines rest : List Bytes) (d : Dry)
    → IsAt lines rest d
    → Reading lines (search_from ep rest d).1
unfolding search_from
search_from-Reading ep lines [] d h = ([], h)
search_from-Reading ep lines (line ∷ rest) d h = elim (Bool-cases (check_dry_run_match ep line)) [
  | inl e ↦ rw e (rest, read_on lines rest line d h)
  | inr e ↦ rw e (search_from-Reading ep lines rest _ (read_on lines rest line d h))
]

show_from-Reading :
    (n : ℕ) (lines rest : List Bytes) (d : Dry)
    → IsAt lines rest d
    → Reading lines (show_from n rest d)
unfolding show_from
show_from-Reading zero lines rest d h = (rest, h)
show_from-Reading (suc n) lines [] d h = ([], h)
show_from-Reading (suc n) lines (line ∷ rest) d h =
    show_from-Reading n lines rest _ (read_on lines rest line d h)

search_lines-Reading :
    (ep : ExpectPattern) (lines : List Bytes) (d : Dry)
    → Reading lines d
    → Reading lines (search_lines ep lines d).1
unfolding search_lines
search_lines-Reading ep lines d (rest, h) =
    rw (rest_of lines rest d h) (search_from-Reading ep lines rest d h)

show_lines-Reading :
    (lines : List Bytes) (d : Dry) → Reading lines d → Reading lines (show_lines lines d)
unfolding show_lines
show_lines-Reading lines d (rest, h) =
    rw (rest_of lines rest d h) (show_from-Reading _ lines rest d h)

-- A result whose state, if there is one, has a property.
abbrev Keeps : List Bytes → Result Error Dry → Type 0
Keeps lines (ok d) = Reading lines d
Keeps lines (err e) = Unit

Keeps-bind :
    (lines : List Bytes) (r : Result Error Dry) (f : Dry → Result Error Dry)
    → Keeps lines r
    → ((d : Dry) → Reading lines d → Keeps lines (f d))
    → Keeps lines (r >>= f)
Keeps-bind lines (ok d) f h k = k d h
Keeps-bind lines (err e) f h k = tt

module _ (compile : Bytes → Option (Bytes → Bool)) (lines : List Bytes) where
  found_or-Keeps :
      (o : Result Error Dry) (r : Bool × Dry)
      → Reading lines r.1
      → Keeps lines o
      → Keeps lines (found_or compile lines o r)
  found_or-Keeps o (true, d) h k = h
  found_or-Keeps o (false, d) h k = k

  dry_pattern-Keeps :
      (value : Bytes) (in_try : Bool) (r : Result Error ExpectPattern) (d : Dry)
      → Reading lines d
      → Keeps lines (dry_pattern compile lines value in_try r d)
  unfolding dry_pattern
  dry_pattern-Keeps value in_try (err e) d h = tt
  dry_pattern-Keeps value true (ok ep) d h =
      let s = search_lines-Reading ep lines d h in
      found_or-Keeps (ok (search_lines ep lines d).1) (search_lines ep lines d) s s
  dry_pattern-Keeps value false (ok ep) d h =
      found_or-Keeps (err (not_in_input value)) (search_lines ep lines d)
        (search_lines-Reading ep lines d h) tt

  dry_sub-Keeps :
      (cs : List Command) (d : Dry) → Reading lines d → Keeps lines (dry_sub compile lines cs d)
  unfolding dry_sub dry_send
  dry_sub-Keeps [] d h = h
  dry_sub-Keeps (send v ∷ cs) d h =
      dry_sub-Keeps cs _ (h.0, record { splits = h.1.splits; position = h.1.position })
  dry_sub-Keeps (expect v ∷ cs) d h =
      Keeps-bind lines (dry_expect compile lines v true d) (dry_sub compile lines cs)
        (unfold dry_expect in dry_pattern-Keeps v true _ d h) (dry_sub-Keeps cs)
  dry_sub-Keeps (monitor v ∷ cs) d h = dry_sub-Keeps cs _ (show_lines-Reading lines d h)
  dry_sub-Keeps (try _ _ _ ∷ cs) d h = dry_sub-Keeps cs d h

  dry_script-Keeps :
      (block : TryBlock) (r : Result Error (List Command)) (d : Dry)
      → Reading lines d
      → Keeps lines (dry_script compile lines block r d)
  unfolding dry_script
  dry_script-Keeps block (err e) d h = tt
  dry_script-Keeps block (ok cs) d h = dry_sub-Keeps cs d h

  dry_try-Keeps :
      (block : TryBlock) (o : Option NamedScript) (d : Dry)
      → Reading lines d
      → Keeps lines (dry_try compile lines block o d)
  unfolding dry_try
  dry_try-Keeps block none d h = tt
  dry_try-Keeps block (some s) d h = dry_script-Keeps block (parse_script s.content) d h

  dry_commands-Keeps :
      (cs : List Command) (d : Dry)
      → Reading lines d
      → Keeps lines (dry_commands compile lines cs d)
  unfolding dry_commands dry_send
  dry_commands-Keeps [] d h = h
  dry_commands-Keeps (send v ∷ cs) d h =
      dry_commands-Keeps cs _ (h.0, record { splits = h.1.splits; position = h.1.position })
  dry_commands-Keeps (expect v ∷ cs) d h =
      Keeps-bind lines (dry_expect compile lines v false d) (dry_commands compile lines cs)
        (unfold dry_expect in dry_pattern-Keeps v false _ d h) (dry_commands-Keeps cs)
  dry_commands-Keeps (try name block scripts ∷ cs) d h =
      Keeps-bind lines _ (dry_commands compile lines cs)
        (dry_try-Keeps block (lookup block.script scripts) d h) (dry_commands-Keeps cs)
  dry_commands-Keeps (monitor v ∷ cs) d h = dry_commands-Keeps cs _ (show_lines-Reading lines d h)

-- A dry run that ends well has logged a first part of the input's lines, each once and in order, and
-- its position is the number of these lines.
pub execute_dry_run-Reading :
    (compile : Bytes → Option (Bytes → Bool)) (input : Bytes) (cs : List Command) (d : Dry)
    → execute_dry_run compile input cs ≡ ok d
    → Reading (split input b'\n') d
unfolding execute_dry_run
execute_dry_run-Reading compile input cs d e = subst (Keeps (split input b'\n')) e (
    dry_commands-Keeps compile (split input b'\n') cs (record { line_index = 0; tx = []; rx = [] })
      (split input b'\n', record { splits = refl; position = refl }))

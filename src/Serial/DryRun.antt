-- ===== src/Serial/DryRun.antt =====
-- executeDryRun of cmd/serial_expect/main.go, from the text of the input file on.
pub mod Input
pub mod Agreement
use mqtt_home_automation.Base.{
  ℕ, zero, suc, ◌+◌, ◌-◌, ◌≡◌, refl, Bool, true, false, List, [], ◌∷◌, ◌++◌, Option, none, some,
  ltb, length, take, drop, if◌then◌else◌,
}
use mqtt_home_automation.Base.Result.{Result, ok, err, ◌>>=◌}
use mqtt_home_automation.Text.{Bytes, codes, split}
use mqtt_home_automation.Maps.{GoMap, lookup}
use mqtt_home_automation.Serial.Config.{Command, send, expect, monitor, try, NamedScript, TryBlock}
use mqtt_home_automation.Serial.Errors.{
  Error, invalid_expect_pattern, not_in_input, script_not_found, parse_failed,
}
use mqtt_home_automation.Serial.Pattern.{
  ExpectPattern, format_send_value, parse_expect_pattern, check_dry_run_match,
}
use mqtt_home_automation.Serial.Script.{parse_script}

-- The position in the lines, what was printed as sent, and the lines logged as received.
pub record Dry : Type 0 where
  pub line_index : ℕ
  pub tx : List Bytes
  pub rx : List Bytes

-- for lineIndex < len(lines): the lines left, from the position on.
search_from : ExpectPattern → List Bytes → Dry → Bool × Dry
search_from ep [] d = (false, d)
search_from ep (line ∷ lines) d =
    let d' = record d { line_index = d.line_index + 1; rx = d.rx ++ line ∷ [] } in
    let rest = search_from ep lines d' in if check_dry_run_match ep line then (true, d') else rest

unfoldable pub search_lines : ExpectPattern → List Bytes → Dry → Bool × Dry
unfolding search_from
search_lines ep lines d = search_from ep (drop d.line_index lines) d

-- for i := 0; i < maxShow && lineIndex < len(lines); i++
show_from : ℕ → List Bytes → Dry → Dry
show_from zero lines d = d
show_from (suc n) [] d = d
show_from (suc n) (line ∷ lines) d =
    show_from n lines (record d { line_index = d.line_index + 1; rx = d.rx ++ line ∷ [] })

-- The next ten lines, or those that are left.
pub show_lines : List Bytes → Dry → Dry
show_lines lines d =
    let max_show =
      if ltb (length lines) (d.line_index + 10) then length lines - d.line_index else 10 in
    show_from max_show (drop d.line_index lines) d

unfoldable pub dry_send : Bytes → Dry → Dry
dry_send value d = record d { tx = d.tx ++ format_send_value value ∷ [] }

module _ (compile : Bytes → Option (Bytes → Bool)) (lines : List Bytes) where
  -- A search that fails ends the dry run, unless it is part of a try block.
  abbrev found_or : Result Error Dry → Bool × Dry → Result Error Dry
  found_or otherwise (true, d) = ok d
  found_or otherwise (false, d) = otherwise

  dry_pattern : Bytes → Bool → Result Error ExpectPattern → Dry → Result Error Dry
  dry_pattern value in_try (err e) d = err (invalid_expect_pattern value e)
  dry_pattern value in_try (ok ep) d =
      let r = search_lines ep lines d in
      found_or (if in_try then ok r.1 else err (not_in_input value)) r

  unfoldable pub dry_expect : Bytes → Bool → Dry → Result Error Dry
  unfolding dry_pattern
  dry_expect value in_try d = dry_pattern value in_try (parse_expect_pattern compile value) d

  -- The commands of the main script of a try block.
  dry_sub : List Command → Dry → Result Error Dry
  dry_sub [] d = ok d
  dry_sub (send v ∷ cs) d = dry_sub cs (dry_send v d)
  dry_sub (expect v ∷ cs) d = dry_expect v true d >>= dry_sub cs
  dry_sub (monitor v ∷ cs) d = dry_sub cs (show_lines lines d)
  dry_sub (try name block scripts ∷ cs) d = dry_sub cs d

  dry_script : TryBlock → Result Error (List Command) → Dry → Result Error Dry
  unfolding dry_sub
  dry_script block (err e) d = err (parse_failed block.script e)
  dry_script block (ok cs) d = dry_sub cs d

  dry_try : TryBlock → Option NamedScript → Dry → Result Error Dry
  unfolding dry_script
  dry_try block none d = err (script_not_found block.script block.name)
  dry_try block (some s) d = dry_script block (parse_script s.content) d

  unfoldable pub dry_commands : List Command → Dry → Result Error Dry
  unfolding dry_try
  dry_commands [] d = ok d
  dry_commands (send v ∷ cs) d = dry_commands cs (dry_send v d)
  dry_commands (expect v ∷ cs) d = dry_expect v false d >>= dry_commands cs
  dry_commands (try name block scripts ∷ cs) d =
      dry_try block (lookup block.script scripts) d >>= dry_commands cs
  dry_commands (monitor v ∷ cs) d = dry_commands cs (show_lines lines d)

unfoldable pub execute_dry_run :
    (Bytes → Option (Bytes → Bool)) → Bytes → List Command → Result Error Dry
execute_dry_run compile input commands =
    dry_commands compile (split input b'\n') commands (record { line_index = 0; tx = []; rx = [] })

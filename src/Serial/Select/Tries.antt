-- ===== src/Serial/Select/Tries.antt =====
-- Try blocks that pass the selection.
use mqtt_home_automation.Base.{
  ◌≡◌, ◌≢◌, refl, subst, ◌∙◌, List, [], ◌∷◌, none, some, All, Bool-cases, inl, inr,
}
use mqtt_home_automation.Base.Result.{Result, ok, err, ◌>>=◌, err-ne-ok}
use mqtt_home_automation.Text.{Bytes, str_eq}
use mqtt_home_automation.Text.Equality.{str_eq-false}
use mqtt_home_automation.Maps.{GoMap, lookup, insert}
use mqtt_home_automation.Maps.Laws.{lookup-insert}
use mqtt_home_automation.Serial.Config.{Config, NamedScript, TryBlock, Command, try}
use mqtt_home_automation.Serial.Errors.{Error, script_not_found, unnamed_try, missing_script}
use mqtt_home_automation.Serial.Port.{World, failed, Env}
use mqtt_home_automation.Serial.Execute.{run_command}
use mqtt_home_automation.Serial.Try.{handle_try}
use mqtt_home_automation.Serial.Select.{
  add_scripts, add_tries, choose, select_scripts, named_scripts, find_try, parse_try_block,
}

add_tries_first :
    (t : TryBlock) (ts : List TryBlock) → (e : Error) × (add_tries (t ∷ ts) [] ≡ err e)
unfolding add_tries lookup
add_tries_first t ts = elim (Bool-cases (str_eq t.name [])) [
  | inl b ↦ (unnamed_try, rw b)
  | inr b ↦ (missing_script t.name t.script, rw b)
]

no_choice :
    (config : Config) (names : List Bytes) (selected : List NamedScript) (ts : List TryBlock)
    → (add_tries ts [] >>= choose config names) ≢ ok selected
unfolding add_tries choose
no_choice config names selected [] e = err-ne-ok e
no_choice config names selected (t ∷ ts) e =
    let (f, h) = add_tries_first t ts in
    let e' : (err f >>= choose config names) ≡ ok selected =
      subst (λ (r : Result Error (GoMap NamedScript)). (r >>= choose config names) ≡ ok selected) h
        e in
    err-ne-ok e'

-- Without a script the selection fails, whatever try blocks there are and whatever is asked for.
pub select_scripts_needs_script :
    (config : Config) (script_names : List Bytes) (selected : List NamedScript)
    → config.scripts ≡ []
    → select_scripts config script_names ≢ ok selected
unfolding select_scripts add_scripts
select_scripts_needs_script config script_names selected none_there e =
    no_choice config script_names selected config.tries (
      subst
        (λ (ss : List NamedScript).
          (add_tries config.tries (add_scripts 0 ss []) >>= choose config script_names)
          ≡ ok selected)
        none_there e)

lookup-named_scripts :
    (k : Bytes) (ss : List NamedScript) (m : GoMap NamedScript)
    → All (λ s. s.name ≢ k) ss
    → lookup k (named_scripts ss m) ≡ lookup k m
unfolding named_scripts
lookup-named_scripts k [] m h = refl
lookup-named_scripts k (s ∷ ss) m (hs, h) = elim (Bool-cases (str_eq s.name [])) [
  | inl e ↦ rw e (lookup-named_scripts k ss m h)
  | inr e ↦ rw e (
      lookup-named_scripts k ss (insert s.name s m) h
      ∙ rw (lookup-insert, str_eq-false s.name k hs))
]

-- The command of a try block whose script is the name of no script, as written in the
-- configuration, fails for want of that script, and changes nothing.
pub parse_try_block_unnamed :
    (config : Config) (name : Bytes) (block : TryBlock) (env : Env) (w : World)
    → find_try name config.tries ≡ some block
    → All (λ (s : NamedScript). s.name ≢ block.script) config.scripts
    → (c : Command) × (parse_try_block config name ≡ ok (c ∷ []))
      × (run_command env c w ≡ (failed (script_not_found block.script block.name), w))
unfolding parse_try_block run_command handle_try lookup
parse_try_block_unnamed config name block env w f h =
    let l : lookup block.script (named_scripts config.scripts []) ≡ none =
      lookup-named_scripts block.script config.scripts [] h in
    (try name block (named_scripts config.scripts []), rw f, rw l)

-- ===== src/Serial/Main/Completes.antt =====
-- What a program that completes has done.
use mqtt_home_automation.Base.{
  ◌≡◌, ◌≢◌, refl, subst, sym, List, [], ◌∷◌, ◌++◌, Option, none, some, All, All-append, Bool-cases,
  inl, inr,
}
use mqtt_home_automation.Base.Int.{ℤ}
use mqtt_home_automation.Base.Result.{Result, ok, err, err-ne-ok}
use mqtt_home_automation.Text.{Bytes, str_eq, has_prefix}
use mqtt_home_automation.Serial.Config.{Config, Command, NamedScript, Serial}
use mqtt_home_automation.Serial.Errors.{Error}
use mqtt_home_automation.Serial.Script.Print.{IsPlain}
use mqtt_home_automation.Serial.Script.Accepted.{parse_script-IsPlain}
use mqtt_home_automation.Serial.Port.{World, done}
use mqtt_home_automation.Serial.Select.{
  marker, parse_selected, parse_try_block, try_command, find_try, select_scripts,
}
use mqtt_home_automation.Serial.Try.Sends.{sends}
use mqtt_home_automation.Serial.Execute.{execute_script}
use mqtt_home_automation.Serial.Execute.Order.{tx-execute_script}
use mqtt_home_automation.Serial.Timeout.{TimeoutError, execute_script_with_timeout}
use mqtt_home_automation.Serial.Timeout.Deadline.{execute_script_with_timeout_succeeds}
use mqtt_home_automation.Serial.DryRun.{Dry, execute_dry_run}
use mqtt_home_automation.Serial.DryRun.Agreement.{execute_script-execute_dry_run}
use mqtt_home_automation.Serial.Main.{
  Outside, Flags, mode_of, completed, dry_completed, env_of, ended, dry_ended, main, run_dry,
  run_opened, run_commands,
}
use mqtt_home_automation.Serial.Main.Prepared.{ParsesTo, all_commands-ParsesTo, Prepared, main-Goes}

-- Without try blocks every command is one that a script can say.
parse_selected-IsPlain :
    (config : Config) (s : NamedScript) (cs : List Command)
    → config.tries ≡ []
    → parse_selected config s ≡ ok cs
    → All IsPlain cs
unfolding parse_selected parse_try_block find_try try_command
parse_selected-IsPlain config s cs t h = elim (Bool-cases (has_prefix s.content marker)) [
  | inl e ↦ absurd (err-ne-ok (rw (e, t) at h))
  | inr e ↦ parse_script-IsPlain s.content cs (rw e at h)
]

ParsesTo-IsPlain :
    (config : Config) (ss : List NamedScript) (cs : List Command)
    → config.tries ≡ []
    → ParsesTo config ss cs
    → All IsPlain cs
ParsesTo-IsPlain config [] cs t h = subst (All IsPlain) (sym h) tt
ParsesTo-IsPlain config (s ∷ ss) cs t (first, rest, p, q, e) = subst (All IsPlain) (sym e) (
    All-append IsPlain first rest (parse_selected-IsPlain config s first t p)
      (ParsesTo-IsPlain config ss rest t q))

Prepared-ParsesTo :
    (o : Outside) (flags : Flags) (cs : List Command) (receive : ℤ)
    (p : Prepared o flags cs receive)
    → ParsesTo p.config p.selected cs
Prepared-ParsesTo o flags cs receive p =
    let (more, q, e) = all_commands-ParsesTo p.config p.selected [] cs p.parsed in
    subst (ParsesTo p.config p.selected) (sym e) q

module _ (o : Outside) where
  ended_completed :
      (e : Option TimeoutError) (w w' : World) → ended e w ≡ completed w' → (e ≡ none) × (w ≡ w')
  unfolding ended
  ended_completed none w w' h = (refl, cc)
  ended_completed (some e) w w' h = cc

  run_opened_completed :
      (t : ℤ × ℤ) (cs : List Command) (e : Option Bytes) (w' : World)
      → run_opened o t cs e ≡ completed w'
      → execute_script (env_of o t.1) cs o.world ≡ (done, w')
  unfolding run_opened
  run_opened_completed (t, r) cs (some e) w' h = cc
  run_opened_completed (t, r) cs none w' h =
      let (a, b) =
        ended_completed (execute_script_with_timeout (env_of o r) t o.in_time cs o.world)
          (execute_script (env_of o r) cs o.world).1 w' h in
      let d = ((execute_script_with_timeout_succeeds (env_of o r) t o.in_time cs o.world).0 a).1 in
      λ i. (d i, b i)

  dry_ended-ne-completed : (r : Result Error Dry) (w' : World) → dry_ended o r ≢ completed w'
  unfolding dry_ended
  dry_ended-ne-completed (ok d) w' = λ h. cc
  dry_ended-ne-completed (err e) w' = λ h. cc

  run_dry-ne-completed :
      (cs : List Command) (input : Option Bytes) (w' : World) → run_dry o cs input ≢ completed w'
  unfolding run_dry
  run_dry-ne-completed cs none w' = λ h. cc
  run_dry-ne-completed cs (some input) w' =
      dry_ended-ne-completed (execute_dry_run o.compile input cs) w'

  run_commands_completed :
      (dry_run : Bytes) (serial : Serial) (t : ℤ × ℤ) (cs : List Command) (w' : World)
      → run_commands o dry_run serial t cs ≡ completed w'
      → execute_script (env_of o t.1) cs o.world ≡ (done, w')
  unfolding run_commands
  run_commands_completed dry_run serial t cs w' h = elim (Bool-cases (str_eq dry_run [])) [
    | inl e ↦ run_opened_completed t cs (o.open_error serial.device (mode_of serial)) w' (rw e at h)
    | inr e ↦ absurd (run_dry-ne-completed cs (o.read_file dry_run) w' (rw e at h))
  ]

  -- A program that completes in the normal mode, with a configuration without try blocks, has
  -- written to the port the data of all send commands of the scripts selected, script after script.
  pub main-sends :
      (flags : Flags) (config : Config) (w' : World)
      → o.parse_config flags.config_file ≡ some config
      → config.tries ≡ []
      → main o flags ≡ completed w'
      → (selected : List NamedScript) × (cs : List Command) × (select_scripts config
            flags.script_names
          ≡ ok selected)
        × ParsesTo config selected cs
        × (w'.tx ≡ o.world.tx ++ sends cs)
  main-sends flags config w' f t h =
      let (cs, receive, p, r) = main-Goes o flags (completed w') tt h in
      let same : p.config ≡ config = cc (p.found, f) in
      let parses =
        subst (λ c. ParsesTo c p.selected cs) same (Prepared-ParsesTo o flags cs receive p) in
      (
        p.selected,
        cs,
        subst (λ (c : Config). select_scripts c flags.script_names ≡ ok p.selected) same p.chosen,
        parses,
        tx-execute_script (env_of o receive) cs o.world w'
            (ParsesTo-IsPlain config p.selected cs t parses)
            (run_commands_completed flags.dry_run p.config.serial (p.script, receive) cs w' r),
      )

  ended-ne-dry_completed :
      (e : Option TimeoutError) (w : World) (d : Dry) → ended e w ≢ dry_completed d
  unfolding ended
  ended-ne-dry_completed none w d = λ h. cc
  ended-ne-dry_completed (some e) w d = λ h. cc

  run_opened-ne-dry_completed :
      (t : ℤ × ℤ) (cs : List Command) (e : Option Bytes) (d : Dry)
      → run_opened o t cs e ≢ dry_completed d
  unfolding run_opened
  run_opened-ne-dry_completed (t, r) cs none d =
      ended-ne-dry_completed (execute_script_with_timeout (env_of o r) t o.in_time cs o.world)
        (execute_script (env_of o r) cs o.world).1 d
  run_opened-ne-dry_completed (t, r) cs (some e) d = λ h. cc

  dry_ended_completed :
      (r : Result Error Dry) (d : Dry) → dry_ended o r ≡ dry_completed d → r ≡ ok d
  unfolding dry_ended
  dry_ended_completed (ok e) d h = cc
  dry_ended_completed (err e) d h = cc

  run_dry_completed :
      (cs : List Command) (input : Option Bytes) (d : Dry)
      → run_dry o cs input ≡ dry_completed d
      → (text : Bytes) × (execute_dry_run o.compile text cs ≡ ok d)
  unfolding run_dry
  run_dry_completed cs none d h = cc
  run_dry_completed cs (some text) d h =
      (text, dry_ended_completed (execute_dry_run o.compile text cs) d h)

  run_commands_dry_completed :
      (dry_run : Bytes) (serial : Serial) (t : ℤ × ℤ) (cs : List Command) (d : Dry)
      → run_commands o dry_run serial t cs ≡ dry_completed d
      → (text : Bytes) × (execute_dry_run o.compile text cs ≡ ok d)
  unfolding run_commands
  run_commands_dry_completed dry_run serial t cs d h = elim (Bool-cases (str_eq dry_run [])) [
    | inl e ↦ absurd (
        run_opened-ne-dry_completed t cs (o.open_error serial.device (mode_of serial)) d
          (rw e at h))
    | inr e ↦ run_dry_completed cs (o.read_file dry_run) d (rw e at h)
  ]

  Prepared-commands :
      (f g : Flags) (cs ds : List Command) (r q : ℤ)
      → f.config_file ≡ g.config_file
      → f.script_names ≡ g.script_names
      → Prepared o f cs r
      → Prepared o g ds q
      → cs ≡ ds
  Prepared-commands f g cs ds r q a b p s =
      cc (a, b, p.found, s.found, p.chosen, s.chosen, p.parsed, s.parsed)

  -- If a dry run and a normal run of the program, with the same configuration file, which has no try
  -- blocks, and the same script names, both complete, then the normal run has written to the port
  -- exactly the data that the dry run printed, in order.
  pub main_dry_run_agrees :
      (dry real : Flags) (config : Config) (d : Dry) (w' : World)
      → dry.config_file ≡ real.config_file
      → dry.script_names ≡ real.script_names
      → o.parse_config real.config_file ≡ some config
      → config.tries ≡ []
      → main o dry ≡ dry_completed d
      → main o real ≡ completed w'
      → w'.tx ≡ o.world.tx ++ d.tx
  main_dry_run_agrees dry real config d w' a b f t hd hr =
      let (cs, r, p, e) = main-Goes o dry (dry_completed d) tt hd in
      let (ds, q, s, g) = main-Goes o real (completed w') tt hr in
      let same : s.config ≡ config = cc (s.found, f) in
      let parses = subst (λ c. ParsesTo c s.selected ds) same (Prepared-ParsesTo o real ds q s) in
      let (text, x) = run_commands_dry_completed dry.dry_run p.config.serial (p.script, r) cs d e in
      execute_script-execute_dry_run (env_of o q) text ds d o.world w'
        (ParsesTo-IsPlain config s.selected ds t parses)
        (subst (λ (c : List Command). execute_dry_run o.compile text c ≡ ok d)
          (Prepared-commands dry real cs ds r q a b p s) x)
        (run_commands_completed real.dry_run s.config.serial (s.script, q) ds w' g)

-- ===== src/Serial/Main/Prepared.antt =====
-- What main has before it runs the commands.
use mqtt_home_automation.Base.{
  ◌≡◌, refl, subst, sym, ◌∙◌, List, [], ◌∷◌, ◌++◌, append-nil, append_assoc, Option, none, some,
  Bool-cases, inl, inr,
}
use mqtt_home_automation.Base.Result.{Result, ok, err, bind-ok, ok-injective}
use mqtt_home_automation.Text.{str_eq}
use mqtt_home_automation.Serial.Config.{Config, Command, NamedScript}
use mqtt_home_automation.Serial.Errors.{Error}
use mqtt_home_automation.Base.Int.{ℤ}
use mqtt_home_automation.Serial.Select.{
  parse_selected, all_commands, select_scripts, parse_timeouts,
}
use mqtt_home_automation.Serial.Main.{
  Outside, Flags, Ending, usage, fatal, completed, dry_completed, main, run_config, run_timed,
  run_selected, run_parsed, run_commands,
}

-- The commands of the scripts, one script after the other.
abbrev pub ParsesTo : Config → List NamedScript → List Command → Type 0
ParsesTo config [] cs = cs ≡ []
ParsesTo config (s ∷ ss) cs =
    (first : List Command) × (rest : List Command) × (parse_selected config s ≡ ok first)
    × ParsesTo config ss rest
    × (cs ≡ first ++ rest)

pub all_commands-ParsesTo :
    (config : Config) (ss : List NamedScript) (front cs : List Command)
    → all_commands config ss front ≡ ok cs
    → (more : List Command) × ParsesTo config ss more × (cs ≡ front ++ more)
unfolding all_commands
all_commands-ParsesTo config [] front cs h =
    ([], refl, sym (ok-injective h) ∙ sym (append-nil front))
all_commands-ParsesTo config (s ∷ ss) front cs h =
    let (first, p, e) =
      bind-ok (parse_selected config s) (λ commands. all_commands config ss (front ++ commands))
        h in
    let (more, q, f) = all_commands-ParsesTo config ss (front ++ first) cs e in
    (first ++ more, (first, more, p, q, refl), f ∙ append_assoc front first more)

-- What main has before it runs the commands: a configuration, the timeouts, and the commands of the
-- scripts selected.
pub record Prepared (o : Outside) (flags : Flags) (commands : List Command) (receive : ℤ)
    : Type 0 where
  pub config : Config
  pub script : ℤ
  pub selected : List NamedScript
  pub found : o.parse_config flags.config_file ≡ some config
  pub timeouts : parse_timeouts o.parse_duration config.timeout ≡ ok (script, receive)
  pub chosen : select_scripts config flags.script_names ≡ ok selected
  pub parsed : all_commands config selected [] ≡ ok commands

module _ (o : Outside) (flags : Flags) where
  -- A program that does not end before has prepared, and runs the commands.
  abbrev pub Goes : Ending → Type 0
  Goes r =
      (cs : List Command) × (receive : ℤ) × (p : Prepared o flags cs receive) × (run_commands o
          flags.dry_run p.config.serial (p.script, receive) cs
        ≡ r)

  abbrev pub IsEnd : Ending → Type 0
  IsEnd (completed w) = Unit
  IsEnd (dry_completed d) = Unit
  IsEnd usage = ⊥
  IsEnd (fatal f) = ⊥

  from_parsed :
      (config : Config) (t : ℤ × ℤ) (ss : List NamedScript) (q : Result Error (List Command))
      (r : Ending)
      → IsEnd r
      → o.parse_config flags.config_file ≡ some config
      → parse_timeouts o.parse_duration config.timeout ≡ ok t
      → select_scripts config flags.script_names ≡ ok ss
      → all_commands config ss [] ≡ q
      → run_parsed o flags.dry_run config t q ≡ r
      → Goes r
  unfolding run_parsed
  from_parsed config t ss (err e) r end f ft fs fq h = absurd (subst IsEnd (sym h) end)
  from_parsed config t ss (ok cs) r end f ft fs fq h = (
    cs,
    t.1,
    record {
      config = config;
      script = t.0;
      selected = ss;
      found = f;
      timeouts = ft;
      chosen = fs;
      parsed = fq;
    },
    h,
  )

  from_selected :
      (config : Config) (t : ℤ × ℤ) (q : Result Error (List NamedScript)) (r : Ending)
      → IsEnd r
      → o.parse_config flags.config_file ≡ some config
      → parse_timeouts o.parse_duration config.timeout ≡ ok t
      → select_scripts config flags.script_names ≡ q
      → run_selected o flags.dry_run config t q ≡ r
      → Goes r
  unfolding run_selected
  from_selected config t (err e) r end f ft fs h = absurd (subst IsEnd (sym h) end)
  from_selected config t (ok ss) r end f ft fs h =
      from_parsed config t ss (all_commands config ss []) r end f ft fs refl h

  from_timed :
      (config : Config) (q : Result Error (ℤ × ℤ)) (r : Ending)
      → IsEnd r
      → o.parse_config flags.config_file ≡ some config
      → parse_timeouts o.parse_duration config.timeout ≡ q
      → run_timed o flags config q ≡ r
      → Goes r
  unfolding run_timed
  from_timed config (err e) r end f ft h = absurd (subst IsEnd (sym h) end)
  from_timed config (ok t) r end f ft h =
      from_selected config t (select_scripts config flags.script_names) r end f ft refl h

  from_config :
      (q : Option Config) (r : Ending)
      → IsEnd r
      → o.parse_config flags.config_file ≡ q
      → run_config o flags q ≡ r
      → Goes r
  unfolding run_config
  from_config none r end f h = absurd (subst IsEnd (sym h) end)
  from_config (some config) r end f h =
      from_timed config (parse_timeouts o.parse_duration config.timeout) r end f refl h

  pub main-Goes : (r : Ending) → IsEnd r → main o flags ≡ r → Goes r
  unfolding main
  main-Goes r end h = elim (Bool-cases (str_eq flags.config_file [])) [
    | inl e ↦ absurd (subst IsEnd (sym (rw e at h)) end)
    | inr e ↦ from_config (o.parse_config flags.config_file) r end refl (rw e at h)
  ]

-- ===== src/Listener/Main/Runs.antt =====
-- What a message runs, from the flags and the file of commands on.
use mqtt_home_automation.Base.{
  ◌≡◌, ◌⊎◌, refl, ap, sym, ◌∙◌, subst, true, List, [], ◌++◌, none, some, arith, Bool-cases, inl,
  inr,
}
use mqtt_home_automation.Base.Result.{Result, ok, err, ok-injective, err-ne-ok, bind-ok}
use mqtt_home_automation.Text.{Bytes, codes, str_eq, fields}
use mqtt_home_automation.Maps.{GoMap}
use mqtt_home_automation.Listener.Config.{
  Config, Command, check_args, load_xml_commands, parse_broker_url,
}
use mqtt_home_automation.Listener.Config.Commands.{last_command, load_xml_commands-lookup}
use mqtt_home_automation.Listener.Handle.{
  Exit, words_run, execute_command, handle_message, subscribe_topics,
}
use mqtt_home_automation.Listener.Handle.Safety.{RunsNamed, handle_message_runs}
use mqtt_home_automation.Listener.Main.{
  Outside, Fatal, Listening, or_fatal, load_file, load_commands, with_client_id, usage, bad_broker,
  connect, subscribe_all, listen, run_loaded, main,
}

or_fatal-ok :
    {E A : Type 0} (f : E → Fatal) (r : Result E A) {a : A} → or_fatal f r ≡ ok a → r ≡ ok a
unfolding or_fatal
or_fatal-ok f (ok a) h = ap ok (ok-injective h)
or_fatal-ok f (err e) h = absurd (err-ne-ok h)

-- The configuration in use has the flags' command and file, and with a file the commands in it.
pub record Configured (o : Outside) (flags config : Config) : Type 0 where
  pub command : config.command ≡ flags.command
  pub config_file : config.config_file ≡ flags.config_file
  pub commands :
      (str_eq flags.config_file [] ≡ true)
      ⊎ ((cs : List Command) × (o.read_commands flags.config_file ≡ ok cs)
          × (load_xml_commands cs ≡ ok config.commands))

check_args-ok : (flags : Config) {config : Config} → check_args flags ≡ ok config → flags ≡ config
unfolding check_args
check_args-ok flags h = ground arith

module _ (o : Outside) where
  load_file-ok :
      (name : Bytes) {m : GoMap Bytes}
      → load_file o name ≡ ok m
      → (cs : List Command) × (o.read_commands name ≡ ok cs) × (load_xml_commands cs ≡ ok m)
  unfolding load_file
  load_file-ok name h =
      let (cs, read, rest) = bind-ok _ _ h in (cs, or_fatal-ok _ _ read, or_fatal-ok _ _ rest)

  load_commands-Configured :
      (flags : Config) {config : Config}
      → load_commands o flags ≡ ok config
      → Configured o flags config
  unfolding load_commands
  load_commands-Configured flags h = elim (Bool-cases (str_eq flags.config_file [])) [
    | inl e ↦
        subst (Configured o flags) (ok-injective (rw e at h))
          (record { command = refl; config_file = refl; commands = inl e })
    | inr e ↦
        let (m, read, rest) = bind-ok (load_file o flags.config_file) _ (rw e at h) in
        subst (Configured o flags) (ok-injective rest) (record {
          command = refl;
          config_file = refl;
          commands = inr (load_file-ok flags.config_file read);
        })
  ]

  -- What stays of a configuration when the client's name and the topic are put in.
  Kept : Config → Config → Type 0
  Kept loaded config =
      (config.command ≡ loaded.command)
      × (config.config_file ≡ loaded.config_file)
      × (config.commands ≡ loaded.commands)

  with_client_id-Kept :
      (loaded : Config) (topic : Bytes)
      → Kept loaded (with_client_id o (record loaded { topic = topic }))
  unfolding with_client_id Kept
  with_client_id-Kept loaded topic = elim (Bool-cases (str_eq loaded.client_id [])) [
    | inl e ↦ rw e (refl, refl, refl)
    | inr e ↦ rw e (refl, refl, refl)
  ]

  listen-Kept :
      (loaded : Config) (broker topic : Bytes) {l : Listening}
      → listen o loaded (broker, topic) ≡ ok l
      → Kept loaded l.config
  unfolding listen
  listen-Kept loaded broker topic h =
      let (c, is_connected, h1) = bind-ok (connect o) _ h in
      let config = with_client_id o (record loaded { topic = topic }) in
      let (topics, are_subscribed, h2) = bind-ok (subscribe_all o (subscribe_topics config)) _ h1 in
      subst (λ l. Kept loaded l.config) (ok-injective h2) (with_client_id-Kept loaded topic)

  run_loaded-Kept :
      (loaded : Config) {l : Listening} → run_loaded o loaded ≡ ok l → Kept loaded l.config
  unfolding run_loaded
  run_loaded-Kept loaded h =
      let (parsed, is_parsed, h1) =
        bind-ok (or_fatal bad_broker (parse_broker_url (o.parse_url loaded.broker_url))) _ h in
      listen-Kept loaded parsed.0 parsed.1 h1

  Kept-Configured :
      (flags loaded config : Config)
      → Configured o flags loaded
      → Kept loaded config
      → Configured o flags config
  unfolding Kept
  Kept-Configured flags loaded config h (command, config_file, commands) = record {
    command = command ∙ h.command;
    config_file = config_file ∙ h.config_file;
    commands = elim h.commands [
      | inl e ↦ inl e
      | inr (cs, read, loads) ↦ inr (cs, read, loads ∙ ap ok (sym commands))
    ];
  }

  main-Configured :
      (flags : Config) {l : Listening} → main o flags ≡ ok l → Configured o flags l.config
  unfolding main
  main-Configured flags {l = l} h =
      let (checked, is_checked, h1) = bind-ok (or_fatal usage (check_args flags)) _ h in
      let (loaded, is_loaded, h2) = bind-ok (load_commands o checked) _ h1 in
      let same = check_args-ok flags (or_fatal-ok usage (check_args flags) is_checked) in
      Kept-Configured flags loaded l.config
        (load_commands-Configured flags (ap (load_commands o) same ∙ is_loaded))
        (run_loaded-Kept loaded h2)

  -- What the message runs is what the command of the flags says, or what the last command of the file
  -- with the name behind the topic says.
  pub data RunsConfigured (flags : Config) (l : Listening) (topic : Bytes)
      (executed : List (List Bytes)) : Type 0 where
    runs_nothing : executed ≡ [] → RunsConfigured flags l topic executed
    runs_command :
        str_eq flags.config_file [] ≡ true
        → executed ≡ words_run (fields flags.command)
        → RunsConfigured flags l topic executed
    runs_listed :
        (cs : List Command) (name command : Bytes)
        → o.read_commands flags.config_file ≡ ok cs
        → topic ≡ l.config.topic ++ codes "/" ++ name
        → last_command name cs none ≡ some command
        → executed ≡ words_run (fields command)
        → RunsConfigured flags l topic executed

  module _ (exec : List Bytes → Bytes × Exit) where
    handle_message_legacy :
        (config : Config) (now topic : Bytes)
        → str_eq config.config_file [] ≡ true
        → (handle_message exec config now topic).executed ≡ words_run (fields config.command)
    unfolding handle_message execute_command
    handle_message_legacy config now topic h = rw h refl

    runs_named :
        (flags : Config) (l : Listening) (topic : Bytes) (cs : List Command)
        {executed : List (List Bytes)}
        → o.read_commands flags.config_file ≡ ok cs
        → load_xml_commands cs ≡ ok l.config.commands
        → RunsNamed l.config topic executed
        → RunsConfigured flags l topic executed
    runs_named flags l topic cs read loads r =
        runs_listed cs r.name r.command read r.under
          (sym (load_xml_commands-lookup cs l.config.commands r.name loads).1 ∙ r.listed) r.words

    -- Once main listens, a message makes it run nothing; or, without a file of commands, the words of
    -- the command given in the flags; or the words of the last command that the file, as it was read,
    -- lists under the name that the message's topic has behind the base topic.
    pub main_runs :
        (flags : Config) {l : Listening} (now topic : Bytes)
        → main o flags ≡ ok l
        → RunsConfigured flags l topic (handle_message exec l.config now topic).executed
    main_runs flags {l = l} now topic h =
        let configured = main-Configured flags h in
        let file = ap (λ f. str_eq f []) configured.config_file in
        elim (Bool-cases (str_eq flags.config_file [])) [
          | inl legacy ↦ runs_command legacy (
              handle_message_legacy l.config now topic (file ∙ legacy)
              ∙ ap (λ c. words_run (fields c)) configured.command)
          | inr xml ↦ elim configured.commands [
            | inl legacy ↦ absurd (cc (xml, legacy))
            | inr (cs, read, loads) ↦
                elim (handle_message_runs exec l.config now topic (file ∙ xml)) [
                  | inl e ↦ runs_nothing e
                  | inr r ↦ runs_named flags l topic cs read loads r
                ]
          ]
        ]

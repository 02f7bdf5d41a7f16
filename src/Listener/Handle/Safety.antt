-- ===== src/Listener/Handle/Safety.antt =====
-- What a message can make the listener run, and where it answers.
use mqtt_home_automation.Base.{
  ◌≡◌, ◌≢◌, ◌↔◌, ◌⊎◌, refl, true, false, List, [], ◌++◌, Option, none, some, Bool-cases,
  Option-cases, inl, inr,
}
use mqtt_home_automation.Text.{Bytes, codes, str_eq, has_prefix, trim_prefix, fields}
use mqtt_home_automation.Text.Equality.{append-trim_prefix}
use mqtt_home_automation.Maps.{lookup}
use mqtt_home_automation.Listener.Config.{Config}
use mqtt_home_automation.Listener.Handle.{
  Exit, words_run, execute_command, run_named, handle_message,
}

-- The topic names a command of the file, and the program run is that command's words.
pub record RunsNamed (config : Config) (topic : Bytes) (executed : List (List Bytes)) : Type 0 where
  pub name : Bytes
  pub command : Bytes
  pub under : topic ≡ config.topic ++ codes "/" ++ name
  pub listed : lookup name config.commands ≡ some command
  pub words : executed ≡ words_run (fields command)

module _ (exec : List Bytes → Bytes × Exit) where
  -- With a file of commands, a message makes the listener run nothing, or the words of the command
  -- that the file lists under the name that the topic has behind the base topic.
  pub handle_message_runs :
      (config : Config) (now topic : Bytes)
      → str_eq config.config_file [] ≡ false
      → ((handle_message exec config now topic).executed ≡ [])
        ⊎ RunsNamed config topic (handle_message exec config now topic).executed
  unfolding handle_message
  handle_message_runs config now topic xml = elim (Bool-cases (str_eq topic config.topic)) [
    | inl base ↦ rw (xml, base) (inl refl)
    | inr sub ↦ elim (Bool-cases (has_prefix topic (config.topic ++ codes "/"))) [
      | inr other ↦ rw (xml, sub, other) (inl refl)
      | inl under ↦ rw (xml, sub, under) (named (Option-cases (lookup name config.commands)) under)
    ]
  ]
    where
      name : Bytes
      name = trim_prefix topic (config.topic ++ codes "/")

      named :
          (lookup name config.commands ≡ none)
            ⊎ ((c : Bytes) × (lookup name config.commands ≡ some c))
          → has_prefix topic (config.topic ++ codes "/") ≡ true
          → ((run_named exec config topic name (lookup name config.commands)).executed ≡ [])
            ⊎ RunsNamed config topic
                (run_named exec config topic name (lookup name config.commands)).executed
      named (inl e) u = rw e (inl refl)
      named (inr (c, e)) u = rw e (
          inr (record {
            name = name;
            command = c;
            under = append-trim_prefix topic (config.topic ++ codes "/") u;
            listed = e;
            words = unfold execute_command in refl;
          }))

  -- With a file of commands, the listener answers exactly the messages on the base topic and those
  -- under it.
  pub handle_message_silent :
      (config : Config) (now topic : Bytes)
      → str_eq config.config_file [] ≡ false
      → ((handle_message exec config now topic).reply ≡ none) ↔ (
          (str_eq topic config.topic ≡ false)
          × (has_prefix topic (config.topic ++ codes "/") ≡ false))
  unfolding handle_message
  handle_message_silent config now topic xml = elim (Bool-cases (str_eq topic config.topic)) [
    | inl base ↦ rw (xml, base) (λ x. cc, λ x. cc)
    | inr sub ↦ elim (Bool-cases (has_prefix topic (config.topic ++ codes "/"))) [
      | inr other ↦ rw (xml, sub, other) (λ x. (refl, refl), λ x. refl)
      | inl under ↦ rw (xml, sub, under) (λ x. absurd (answers _ x), λ x. cc)
    ]
  ]
    where
      answers :
          (o : Option Bytes)
          → (run_named exec config topic (trim_prefix topic (config.topic ++ codes "/")) o).reply
            ≢ none
      answers none = λ x. cc
      answers (some c) = λ x. cc

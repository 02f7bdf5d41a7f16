-- ===== src/Listener/Handle/Below.antt =====
-- A message under the base topic is one for the command that the rest of the topic names.
use mqtt_home_automation.Base.{◌≡◌, refl, sym, ◌∙◌, true, false, List, [], ◌++◌, append_assoc, some}
use mqtt_home_automation.Text.{Bytes, codes, str_eq, has_prefix, trim_prefix}
use mqtt_home_automation.Text.Equality.{longer, str_eq-false, has_prefix-append, trim_prefix-append}
use mqtt_home_automation.Maps.{lookup}
use mqtt_home_automation.Listener.Config.{Config}
use mqtt_home_automation.Listener.Handle.{Exit, run_named, handle_message, execute_command}

module _ (exec : List Bytes → Bytes × Exit) (config : Config)
    (xml : str_eq config.config_file [] ≡ false) (now name : Bytes) where
  pub below_base :
      handle_message exec config now (config.topic ++ (codes "/" ++ name))
      ≡ run_named exec config
          (config.topic ++ (codes "/" ++ name))
          name
          (lookup name config.commands)
  unfolding handle_message
  below_base =
      let base = config.topic in
      let topic = base ++ (codes "/" ++ name) in
      let split : topic ≡ (base ++ codes "/") ++ name = sym (append_assoc base (codes "/") name) in
      let other : str_eq topic base ≡ false = str_eq-false topic base (longer base b'/' name) in
      let under : has_prefix topic (base ++ codes "/") ≡ true =
        rw split (has_prefix-append (base ++ codes "/") name) in
      let named : trim_prefix topic (base ++ codes "/") ≡ name =
        rw split (trim_prefix-append (base ++ codes "/") name) in
      rw (xml, other, under, named) refl

  -- A command that is listed is run, and its result published one level below the topic.
  pub below_base_listed :
      {cmd : Bytes}
      → lookup name config.commands ≡ some cmd
      → handle_message exec config now (config.topic ++ (codes "/" ++ name)) ≡ record {
        executed = (execute_command exec cmd).0;
        reply = some (
          (config.topic ++ (codes "/" ++ name)) ++ codes "/status",
          (execute_command exec cmd).1,
        );
      }
  unfolding run_named
  below_base_listed listed = below_base ∙ rw listed refl

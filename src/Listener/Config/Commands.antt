-- ===== src/Listener/Config/Commands.antt =====
-- Which commands a file gives, and which URLs are taken.
use mqtt_home_automation.Base.{
  ◌≡◌, ◌≢◌, ◌↔◌, ◌⊎◌, refl, ap, sym, ◌∙◌, true, false, not, List, [], ◌∷◌, Option, none, some,
  arith, if◌then◌else◌, Bool-cases, inl, inr,
}
use mqtt_home_automation.Base.Result.{ok, ok-injective, err-ne-ok}
use mqtt_home_automation.Text.{Bytes, codes, str_eq, trim_prefix, trim_space}
use mqtt_home_automation.Maps.{GoMap, lookup, insert}
use mqtt_home_automation.Maps.Laws.{lookup-insert}
use mqtt_home_automation.Listener.Config.{
  Command, Config, Url, check_args, add_commands, not_empty, load_xml_commands, parse_broker_url,
}

-- The text of the last command with a name, where names that are empty do not count.
abbrev pub last_command : Bytes → List Command → Option Bytes → Option Bytes
last_command k [] found = found
last_command k (c ∷ cs) found = last_command k cs (
    if str_eq c.name []
    then found
    else if str_eq c.name k
    then some (trim_space c.command)
    else found)

lookup-add_commands :
    (k : Bytes) (cs : List Command) (m : GoMap Bytes) (found : Option Bytes)
    → lookup k m ≡ found
    → lookup k (add_commands cs m) ≡ last_command k cs found
unfolding add_commands
lookup-add_commands k [] m found h = h
lookup-add_commands k (c ∷ cs) m found h =
    lookup-add_commands k cs
      (if str_eq c.name [] then m else insert c.name (trim_space c.command) m) _
      (elim (Bool-cases (str_eq c.name [])) [ inl e ↦ rw e h | inr e ↦ rw (e, lookup-insert, h) ])

-- A file of commands is accepted only with some command that has a name, and then a name stands for
-- the text of its last command, trimmed, and the empty name for none.
pub load_xml_commands-lookup :
    (cs : List Command) (m : GoMap Bytes) (k : Bytes)
    → load_xml_commands cs ≡ ok m
    → (m ≢ []) × (lookup k m ≡ last_command k cs none)
unfolding load_xml_commands lookup
load_xml_commands-lookup cs m k e =
    filled (add_commands cs []) e (lookup-add_commands k cs [] none refl)
  where
    filled :
        (r : GoMap Bytes)
        → not_empty r ≡ ok m
        → lookup k r ≡ last_command k cs none
        → (m ≢ []) × (lookup k m ≡ last_command k cs none)
    filled [] h l = absurd (err-ne-ok h)
    filled (x ∷ r) h l =
        let same : x ∷ r ≡ m = ok-injective h in
        (λ n. let y : x ∷ r ≡ [] = same ∙ n in cc, ap (lookup k) (sym same) ∙ l)

-- A URL is taken only if its scheme is mqtt or tcp, and the topic is its path without the slash in
-- front, and is not empty.
parse_broker_url_topic :
    (u : Url) (broker topic : Bytes)
    → parse_broker_url (some u) ≡ ok (broker, topic)
    → ((str_eq u.scheme (codes "mqtt") ≡ true) ⊎ (str_eq u.scheme (codes "tcp") ≡ true))
      × (topic ≡ trim_prefix u.path (codes "/"))
      × (str_eq topic [] ≡ false)
unfolding parse_broker_url
parse_broker_url_topic u broker topic e = ground arith

-- The flags are accepted exactly if there is a broker, and a command or a file but not both.
check_args_exclusive :
    (config : Config)
    → (check_args config ≡ ok config) ↔ (
        (str_eq config.broker_url [] ≡ false)
        × (str_eq config.command [] ≡ not (str_eq config.config_file [])))
unfolding check_args
check_args_exclusive config = (λ e. (ground arith, ground arith), λ h. ground arith)

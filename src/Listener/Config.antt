-- ===== src/Listener/Config.antt =====
-- The configuration of cmd/mqtt_listener/main.go: parseArgs, loadXMLCommands and parseBrokerURL.
-- Reading and decoding the XML file and the package net/url are parameters: what they return is an
-- argument.
pub mod Commands
use mqtt_home_automation.Base.{
  ℕ, ◌≡◌, refl, Bool, true, false, not, ◌&&◌, ◌||◌, List, [], ◌∷◌, ◌++◌, Option, none, some,
  if◌then◌else◌,
}
use mqtt_home_automation.Base.Result.{Result, ok, err}
use mqtt_home_automation.Text.{Bytes, codes, str_eq, trim_prefix, trim_space}
use mqtt_home_automation.Maps.{GoMap, insert}

pub record Command : Type 0 where
  pub name : Bytes
  pub description : Bytes
  pub command : Bytes

pub record Config : Type 0 where
  pub broker_url : Bytes
  pub topic : Bytes
  pub command : Bytes
  pub username : Bytes
  pub password : Bytes
  pub client_id : Bytes
  pub config_file : Bytes
  pub commands : GoMap Bytes

pub data Error : Type 0 where
  -- parseArgs
  no_broker no_command two_commands : Error
  -- loadXMLCommands
  no_valid_commands : Error
  -- parseBrokerURL
  invalid_url no_topic : Error
  unsupported_scheme : Bytes → Error

-- The checks of parseArgs, on the flags; each failure ends the program.
unfoldable pub check_args : Config → Result Error Config
check_args config =
    if str_eq config.broker_url []
    then err no_broker
    else if str_eq config.command [] && str_eq config.config_file []
    then err no_command
    else if not (str_eq config.command []) && not (str_eq config.config_file [])
    then err two_commands
    else ok config

-- The loop over the commands of the file.
unfoldable pub add_commands : List Command → GoMap Bytes → GoMap Bytes
add_commands [] m = m
add_commands (c ∷ cs) m =
    add_commands cs (if str_eq c.name [] then m else insert c.name (trim_space c.command) m)

not_empty : GoMap Bytes → Result Error (GoMap Bytes)
not_empty [] = err no_valid_commands
not_empty (e ∷ m) = ok (e ∷ m)

unfoldable pub load_xml_commands : List Command → Result Error (GoMap Bytes)
unfolding not_empty
load_xml_commands commands = not_empty (add_commands commands [])

-- What net/url finds in a URL.
pub record Url : Type 0 where
  pub scheme : Bytes
  pub host : Bytes
  pub hostname : Bytes
  pub port : Bytes
  pub path : Bytes

-- The broker's address and the topic, of a URL that is parsed.
unfoldable pub parse_broker_url : Option Url → Result Error (Bytes × Bytes)
parse_broker_url none = err invalid_url
parse_broker_url (some u) =
    if not (str_eq u.scheme (codes "mqtt")) && not (str_eq u.scheme (codes "tcp"))
    then err (unsupported_scheme u.scheme)
    else let broker =
        if str_eq u.port []
        then codes "tcp://" ++ (u.hostname ++ codes ":1883")
        else codes "tcp://" ++ u.host in
      let topic = trim_prefix u.path (codes "/") in
      if str_eq topic [] then err no_topic else ok (broker, topic)

-- ===== src/Serial/Config.antt =====
-- The configuration and the commands of cmd/serial_expect/main.go. Decoding XML is not modelled.
use mqtt_home_automation.Base.{Bool, List, ℕ}
use mqtt_home_automation.Text.{Bytes}
use mqtt_home_automation.Maps.{GoMap}

pub record Serial : Type 0 where
  pub device : Bytes
  pub speed : ℕ
  pub parity : Bool
  pub bits : ℕ

pub record Timeout : Type 0 where
  pub script : Bytes
  pub receive : Bytes

pub record NamedScript : Type 0 where
  pub name : Bytes
  pub content : Bytes

pub record TryBlock : Type 0 where
  pub name : Bytes
  pub script : Bytes
  pub except : Bytes
  pub retry : Bool

pub record Config : Type 0 where
  pub serial : Serial
  pub timeout : Timeout
  pub scripts : List NamedScript
  pub tries : List TryBlock

-- `Type` is the constructor; the fields that only a try command uses stand in it alone.
pub data Command : Type 0 where
  send expect monitor : Bytes → Command
  try : Bytes → TryBlock → GoMap NamedScript → Command

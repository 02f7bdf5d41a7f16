-- ===== src/Home/State.antt =====
-- The configuration and the state of cmd/home-automation-server (structs.go), with the defaults of
-- config.go and main.go. Decoding XML and the templates are not modelled.
use mqtt_home_automation.Base.{ℕ, Bool, List, if◌then◌else◌}
use mqtt_home_automation.Base.Int.{ℤ, pos, is_positive, is_zero}
use mqtt_home_automation.Text.{Bytes}
use mqtt_home_automation.Maps.{GoMap}

pub record Control : Type 0 where
  pub kind : Bytes
  pub label : Bytes
  pub topic : Bytes
  pub payload : Bytes
  pub local_command : Bytes
  pub min : ℤ
  pub max : ℤ

pub record Device : Type 0 where
  pub id : Bytes
  pub name : Bytes
  pub category : Bytes
  pub status_topic : Bytes
  pub controls : List Control

pub record MqttConfig : Type 0 where
  pub broker : Bytes
  pub port : ℤ
  pub username : Bytes
  pub password : Bytes
  pub client_id : Bytes
  pub retry_interval : ℤ
  pub max_retries : ℤ

pub record Category : Type 0 where
  pub id : Bytes
  pub name : Bytes
  pub icon : Bytes

pub record Config : Type 0 where
  pub mqtt : MqttConfig
  pub devices : List Device
  pub categories : List Category
  pub suppress_timestamp : Bool
  pub mqtt_log_size : ℤ

pub record LogEntry : Type 0 where
  pub timestamp : Bytes
  pub topic : Bytes
  pub payload : Bytes

-- A value under a key of a device's status: a string, or what encoding/json decoded.
pub data Value : Type 0 where
  text : Bytes → Value
  decoded : Bytes → Value

pub record DeviceStatus : Type 0 where
  pub id : Bytes
  pub name : Bytes
  pub category : Bytes
  pub status : GoMap Value
  pub controls : List Control

-- What goes to a web socket.
pub data WebSocketMessage : Type 0 where
  status_update : Bytes → GoMap Value → WebSocketMessage
  mqtt_log : LogEntry → WebSocketMessage

-- A connection is a number. Beside the fields of App stand the effects on the outside: what was
-- written to which connection, which connections were closed for a failed write, which commands were
-- started and what was published.
pub record App : Type 0 where
  pub config : Config
  pub device_status : GoMap DeviceStatus
  pub ws_clients : List ℕ
  pub log : List LogEntry
  pub frames : List (ℕ × WebSocketMessage)
  pub closed : List ℕ
  pub commands : List Bytes
  pub published : List (Bytes × Bytes)

-- loadConfig: the default of the log size.
unfoldable pub with_log_size : Config → Config
with_log_size config =
    if is_positive config.mqtt_log_size then config else record config { mqtt_log_size = pos 20 }

-- main: the default of the retry interval, in seconds.
unfoldable pub with_retry_interval : Config → Config
with_retry_interval config =
    if is_zero config.mqtt.retry_interval
    then record config { mqtt = record config.mqtt { retry_interval = pos 5 } }
    else config

-- ===== src/Home/Log.antt =====
-- addMQTTLogEntry and the handlers that only log, in cmd/home-automation-server/mqtt.go.
pub mod History
use mqtt_home_automation.Base.{ℕ, Bool, List, [], ◌∷◌, ltb, length, take, if◌then◌else◌}
use mqtt_home_automation.Base.Int.{ℤ, to_ℕ, is_positive}
use mqtt_home_automation.Text.{Bytes}
use mqtt_home_automation.Home.State.{App, Config, LogEntry, WebSocketMessage}
use mqtt_home_automation.Home.Broadcast.{broadcast_mqtt_log}

-- maxSize; a size that is not positive stands for 20.
unfoldable pub max_size : Config → ℕ
max_size config = if is_positive config.mqtt_log_size then to_ℕ config.mqtt_log_size else 20

pub trim_log : ℕ → List LogEntry → List LogEntry
trim_log size log = if ltb size (length log) then take size log else log

-- The clock's time, `now`, is an argument.
unfoldable pub add_mqtt_log_entry :
    (ℕ → WebSocketMessage → Bool) → Bytes → Bytes → Bytes → App → App
unfolding trim_log
add_mqtt_log_entry accepts now topic payload app =
    let entry : LogEntry = record { timestamp = now; topic = topic; payload = payload } in
    broadcast_mqtt_log accepts entry
      (record app { log = trim_log (max_size app.config) (entry ∷ app.log) })

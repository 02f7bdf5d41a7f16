-- ===== src/Home/Connect.antt =====
-- connectMQTTWithRetry, connectMQTT, reconnectMQTT and subscribeToStatusTopics of cmd/home-automation-server/mqtt.go. The MQTT
-- client is a parameter: `attempt i` is the error of the connection attempt with number i, if any.
pub mod Attempts
pub mod Reconnects
use mqtt_home_automation.Base.{
  ℕ, zero, suc, ◌+◌, ◌++◌, Bool, true, ◌&&◌, List, [], ◌∷◌, Option, none, some, leb, if◌then◌else◌,
}
use mqtt_home_automation.Base.Int.{ℤ, pos, times, to_ℕ, is_positive}
use mqtt_home_automation.Text.{Bytes, codes, str_eq}
use mqtt_home_automation.Text.Number.{print_int}
use mqtt_home_automation.Home.State.{Device, MqttConfig}

-- Connected, after so many failed attempts; given up after so many, with the last error; or still
-- trying when the fuel is spent.
pub data Connection : Type 0 where
  connected : ℕ → Connection
  given_up : ℕ → Bytes → Connection
  trying : Connection

-- The loop, with the failed attempts so far. A round is one attempt; each failure that does not end
-- the loop sleeps for the retry interval.
retry_from : MqttConfig → (ℕ → Option Bytes) → ℕ → ℕ → Connection
retry_from config attempt zero retry_count = trying
retry_from config attempt (suc fuel) retry_count =
    let again = retry_from config attempt fuel (retry_count + 1) in
    elim (attempt retry_count) [
      | none ↦ connected retry_count
      | some e ↦
          if is_positive config.max_retries && leb (to_ℕ config.max_retries) (retry_count + 1)
          then given_up (retry_count + 1) e
          else again
    ]

unfoldable pub connect_mqtt_with_retry : MqttConfig → (ℕ → Option Bytes) → ℕ → Connection
unfolding retry_from
connect_mqtt_with_retry config attempt fuel = retry_from config attempt fuel 0

-- The subscriptions: a topic, and the device whose status it carries.
unfoldable pub subscribe_to_status_topics : List Device → List (Bytes × Bytes)
unfolding str_eq
subscribe_to_status_topics [] = []
subscribe_to_status_topics (d ∷ ds) =
    let rest = subscribe_to_status_topics ds in
    if str_eq d.status_topic [] then rest else (d.status_topic, d.id) ∷ rest

-- What the MQTT client is configured with; durations are in nanoseconds.
pub record ClientOptions : Type 0 where
  pub broker : Bytes
  pub client_id : Bytes
  pub username : Bytes
  pub password : Bytes
  pub connect_timeout : ℤ
  pub keep_alive : ℤ
  pub ping_timeout : ℤ
  pub auto_reconnect : Bool
  pub max_reconnect_interval : ℤ

-- time.Second
second : ℤ
second = pos 1_000_000_000

-- The options of connectMQTT. Its handlers are subscribe_to_status_topics on every connection and
-- reconnect_mqtt when one is lost.
client_options : MqttConfig → ClientOptions
unfolding second
client_options config = record {
  broker = codes "tcp://" ++ (config.broker ++ (codes ":" ++ print_int config.port));
  client_id = config.client_id;
  username = config.username;
  password = config.password;
  connect_timeout = times (pos 10) second;
  keep_alive = times (pos 30) second;
  ping_timeout = times (pos 5) second;
  auto_reconnect = true;
  max_reconnect_interval = times config.retry_interval second;
}

-- The error of Connect, a parameter, on these options.
connect_mqtt : (ClientOptions → Option Bytes) → MqttConfig → Option Bytes
unfolding client_options
connect_mqtt connect config = connect (client_options config)

-- The loop of reconnectMQTT, from the check with number i and the attempts so far: the attempts when
-- it ends. `is_connected i` is what the check with number i finds; a round has two checks, and sleeps
-- between them. None stands for a loop that still runs when the fuel is spent.
reconnect_from : (ℕ → Bool) → ℕ → ℕ → ℕ → Option ℕ
reconnect_from is_connected zero i retry_count = none
reconnect_from is_connected (suc fuel) i retry_count =
    let again = reconnect_from is_connected fuel (i + 2) (retry_count + 1) in
    if is_connected i
    then some retry_count
    else if is_connected (i + 1)
    then some (retry_count + 1)
    else again

pub reconnect_mqtt : (ℕ → Bool) → ℕ → Option ℕ
unfolding reconnect_from
reconnect_mqtt is_connected fuel = reconnect_from is_connected fuel 0 0

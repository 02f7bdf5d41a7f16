-- ===== src/Examples/Server.antt =====
-- Runs of cmd/home-automation-server.
use mqtt_home_automation.Base.{
  ℕ, zero, suc, ◌≡◌, ◌↔◌, refl, Bool, true, false, not, [], ◌∷◌, ◌++◌, map, Option, none, some,
  arith, take, ◌==◌, if◌then◌else◌, ◌≤◌, length,
}
use mqtt_home_automation.Base.Int.{pos}
use mqtt_home_automation.Text.{Bytes, codes}
use mqtt_home_automation.Maps.{lookup}
use mqtt_home_automation.Home.State.{
  App, Config, Device, DeviceStatus, LogEntry, MqttConfig, decoded, WebSocketMessage, mqtt_log,
}
use mqtt_home_automation.Home.Broadcast.{broadcast_mqtt_log}
use mqtt_home_automation.Home.Broadcast.Delivery.{
  Absent, keep, to_each, SameBesides, broadcast_mqtt_log_delivers,
}
use mqtt_home_automation.Home.Log.{max_size, add_mqtt_log_entry}
use mqtt_home_automation.Home.Log.History.{add_entries, log-add_entries}
use mqtt_home_automation.Home.Status.{
  Json, object, not_object, ran, panicked, new_status, handle_status_update,
}
use mqtt_home_automation.Home.Status.Updates.{
  Updated, handle_status_update_panics, handle_status_update_stores,
}
use mqtt_home_automation.Home.Connect.{connect_mqtt_with_retry}
use mqtt_home_automation.Home.Connect.Attempts.{EndsWithin, connect_mqtt_with_retry_ends}
use mqtt_home_automation.Home.Control.{Request}
use mqtt_home_automation.Home.Socket.{open_socket}
use mqtt_home_automation.Home.Steps.{here, next, message, connect, written_to}
use mqtt_home_automation.Home.Steps.Invariant.{IsConsistent, Reach-IsConsistent}

abbrev pub mqtt : ℕ → MqttConfig
mqtt retries = record {
  broker = codes "localhost";
  port = pos 1883;
  username = [];
  password = [];
  client_id = codes "home";
  retry_interval = pos 5;
  max_retries = pos retries;
}

abbrev pub lamp : Device
lamp = record {
  id = codes "lamp";
  name = codes "Lamp";
  category = codes "light";
  status_topic = codes "lamp/state";
  controls = [];
}

abbrev pub config : Config
config = record {
  mqtt = mqtt 3;
  devices = lamp ∷ [];
  suppress_timestamp = false;
  categories = [];
  mqtt_log_size = pos 2;
}

abbrev pub app : App
app = record {
  config = config;
  device_status = (codes "lamp", new_status lamp) ∷ [];
  ws_clients = 1 ∷ 2 ∷ 3 ∷ [];
  log = [];
  frames = [];
  closed = [];
  commands = [];
  published = [];
}

abbrev entry : Bytes → LogEntry
entry payload = record { timestamp = codes "t"; topic = codes "lamp/state"; payload = payload }

-- The second client is gone.
abbrev pub accepts : ℕ → WebSocketMessage → Bool
accepts c m = not (c == 2)

-- A payload in braces is an object, an "n" a number.
abbrev decode : Bytes → Option Json
decode [] = none
decode (c ∷ s) =
    if c == b'{'
    then some (object ((codes "state", decoded (c ∷ s)) ∷ []))
    else if c == b'n'
    then some not_object
    else none

pub bounded : length app.log ≤ max_size app.config
unfolding max_size
bounded = omega arith

abbrev pub consistent : IsConsistent app
consistent = record {
  bounded = bounded;
  open_clients =
      (((omega arith, (omega arith, tt)), ((omega arith, tt), (tt, tt))), (tt, (tt, (tt, tt))));
}

-- A message comes in, at which the second client is found to be gone, and a new one connects.
abbrev pub messaged : App
messaged = add_mqtt_log_entry accepts (codes "t") (codes "x") (codes "on") app

pub four_new : Absent 4 messaged.ws_clients
unfolding add_mqtt_log_entry broadcast_mqtt_log mqtt_home_automation.Home.Broadcast.send_to_all
    mqtt_home_automation.Home.Broadcast.send_to
four_new = (omega arith, (omega arith, tt))

pub four_open : Absent 4 messaged.closed
unfolding add_mqtt_log_entry broadcast_mqtt_log mqtt_home_automation.Home.Broadcast.send_to_all
    mqtt_home_automation.Home.Broadcast.send_to
four_open = (omega arith, tt)

pub four_silent : Absent 4 (map written_to messaged.frames)
unfolding add_mqtt_log_entry broadcast_mqtt_log mqtt_home_automation.Home.Broadcast.send_to_all
    mqtt_home_automation.Home.Broadcast.send_to
four_silent = (omega arith, (omega arith, tt))

Reach-IsConsistent_example : IsConsistent (open_socket 4 messaged)
Reach-IsConsistent_example = Reach-IsConsistent app consistent (
    next (next here (message accepts (codes "t") (codes "x") (codes "on") app))
      (connect 4 messaged four_new four_open four_silent))

broadcast_mqtt_log_delivers_example :
    ((broadcast_mqtt_log accepts (entry (codes "on")) app).frames
      ≡ app.frames
        ++ to_each
            (mqtt_log (entry (codes "on")))
            (keep (λ c. accepts c (mqtt_log (entry (codes "on")))) app.ws_clients))
    × ((broadcast_mqtt_log accepts (entry (codes "on")) app).ws_clients
        ≡ keep (λ c. accepts c (mqtt_log (entry (codes "on")))) app.ws_clients)
    × ((broadcast_mqtt_log accepts (entry (codes "on")) app).closed
        ≡ app.closed ++ keep (λ c. not (accepts c (mqtt_log (entry (codes "on"))))) app.ws_clients)
    × SameBesides accepts
        (mqtt_log (entry (codes "on")))
        app
        (broadcast_mqtt_log accepts (entry (codes "on")) app)
broadcast_mqtt_log_delivers_example =
    broadcast_mqtt_log_delivers accepts (entry (codes "on")) app
      ((omega arith, (omega arith, tt)), ((omega arith, tt), (tt, tt)))

starts_empty : app.log ≡ take (max_size app.config) []
unfolding max_size
starts_empty = refl

log-add_entries_example :
    (add_entries accepts (entry (codes "a") ∷ entry (codes "b") ∷ entry (codes "c") ∷ []) app).log
    ≡ take (max_size config) (entry (codes "c") ∷ entry (codes "b") ∷ entry (codes "a") ∷ [])
log-add_entries_example =
    log-add_entries accepts (entry (codes "a") ∷ entry (codes "b") ∷ entry (codes "c") ∷ []) [] app
      starts_empty

lamp_known : lookup (codes "lamp") app.device_status ≡ some (new_status lamp)
unfolding lookup mqtt_home_automation.Text.str_eq
lamp_known = refl

handle_status_update_panics_example :
    (handle_status_update accepts decode (codes "t") (codes "lamp") (codes "n") app ≡ panicked) ↔ (
      ((d : DeviceStatus) × (lookup (codes "lamp") app.device_status ≡ some d))
      × (decode (codes "n") ≡ some not_object))
handle_status_update_panics_example =
    handle_status_update_panics accepts decode (codes "t") (codes "lamp") (codes "n") app

handle_status_update_stores_example :
    (after : App) × (handle_status_update accepts decode (codes "t") (codes "lamp") (codes "on") app
      ≡ ran after)
    × Updated accepts decode (codes "t") (codes "lamp") (codes "on") (new_status lamp) app after
handle_status_update_stores_example =
    handle_status_update_stores accepts decode (codes "t") (codes "lamp") (codes "on")
      (new_status lamp) app lamp_known (λ e. cc e)

-- The first two attempts fail.
abbrev pub attempts : ℕ → Option Bytes
attempts zero = some (codes "refused")
attempts (suc zero) = some (codes "refused")
attempts (suc (suc n)) = none

connect_mqtt_with_retry_ends_example :
    EndsWithin attempts 2 0 (connect_mqtt_with_retry (mqtt 3) attempts 3)
connect_mqtt_with_retry_ends_example = connect_mqtt_with_retry_ends (mqtt 3) attempts 2 refl

abbrev switch_on : Request
switch_on = record {
  device = codes "lamp";
  topic = codes "lamp/set";
  payload = codes "on";
  local_command = codes "beep";
}

abbrev publishes : Bytes → Bytes → Bool
publishes topic payload = true

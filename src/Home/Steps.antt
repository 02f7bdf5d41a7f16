-- ===== src/Home/Steps.antt =====
-- The handlers of cmd/home-automation-server as steps that the environment chooses: messages,
-- requests and connections in any order. A step is what runs under the mutexes of the parts that it
-- touches: a whole handler, and of handleWebSocket its joining, each of its two loops, and its
-- leaving.
pub mod Clients
pub mod Invariant
use mqtt_home_automation.Base.{ℕ, Bool, List, map, Option, none, some, ◌≡◌}
use mqtt_home_automation.Text.{Bytes}
use mqtt_home_automation.Home.State.{App, WebSocketMessage}
use mqtt_home_automation.Home.Broadcast.Delivery.{Absent}
use mqtt_home_automation.Home.Log.{add_mqtt_log_entry}
use mqtt_home_automation.Home.Status.{
  Json, Handled, ran, initialize_device_status, on_status_message,
}
use mqtt_home_automation.Home.Control.{Request, handle_control}
use mqtt_home_automation.Home.Socket.{open_socket, send_statuses, send_log, close_socket}

abbrev pub written_to : ℕ × WebSocketMessage → ℕ
written_to f = f.0

-- What a write to a connection, the decoder and the broker do is chosen anew for each step.
pub data Step : App → App → Type 0 where
  initialize : (app : App) → Step app (initialize_device_status app)
  -- onMQTTMessage, and the subscription to all messages
  message :
      (accepts : ℕ → WebSocketMessage → Bool) (now topic payload : Bytes) (app : App)
      → Step app (add_mqtt_log_entry accepts now topic payload app)
  -- a status topic's subscription, when it does not panic
  status :
      (accepts : ℕ → WebSocketMessage → Bool) (decode : Bytes → Option Json)
      (now device_id topic payload : Bytes) (app after : App)
      → on_status_message accepts decode now device_id topic payload app ≡ ran after
      → Step app after
  control :
      (accepts : ℕ → WebSocketMessage → Bool) (publishes : Bytes → Bytes → Bool)
      (now method : Bytes) (body : Option Request) (app : App)
      → Step app (handle_control accepts publishes now method body app).1
  -- a connection that was not there before, so nothing was written to it
  connect :
      (c : ℕ) (app : App)
      → Absent c app.ws_clients
      → Absent c app.closed
      → Absent c (map written_to app.frames)
      → Step app (open_socket c app)
  -- the two loops of handleWebSocket; a broadcast may have removed the connection before. That the
  -- connection has joined, and that each loop runs once, is not demanded here
  greet_statuses :
      (accepts : ℕ → WebSocketMessage → Bool) (c : ℕ) (app : App)
      → Step app (send_statuses accepts c app)
  greet_log :
      (accepts : ℕ → WebSocketMessage → Bool) (c : ℕ) (app : App)
      → Step app (send_log accepts c app)
  disconnect : (c : ℕ) (app : App) → Step app (close_socket c app)

pub data Reach (start : App) : App → Type 0 where
  here : Reach start start
  next : {a b : App} → Reach start a → Step a b → Reach start b

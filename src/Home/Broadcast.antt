-- ===== src/Home/Broadcast.antt =====
-- broadcastUpdate and broadcastMQTTLog of cmd/home-automation-server/mqtt.go. The two loops differ in
-- the message alone. Whether WriteJSON to a connection succeeds is a parameter, `accepts`.
pub mod Delivery
use mqtt_home_automation.Base.{
  ℕ, ◌≡◌, refl, Bool, true, false, List, [], ◌∷◌, ◌++◌, if◌then◌else◌, ◌==◌,
}
use mqtt_home_automation.Text.{Bytes}
use mqtt_home_automation.Maps.{GoMap}
use mqtt_home_automation.Home.State.{
  App, Value, LogEntry, WebSocketMessage, status_update, mqtt_log,
}

-- delete(app.wsClients, client)
unfoldable pub remove_client : ℕ → List ℕ → List ℕ
remove_client c [] = []
remove_client c (d ∷ ds) = let rest = remove_client c ds in if d == c then rest else d ∷ rest

-- A round of the loop: a client that does not take the message is closed and deleted.
unfoldable pub send_to : (ℕ → WebSocketMessage → Bool) → WebSocketMessage → ℕ → App → App
unfolding remove_client
send_to accepts message client app =
    if accepts client message
    then record app { frames = app.frames ++ (client, message) ∷ [] }
    else record app {
      closed = app.closed ++ client ∷ [];
      ws_clients = remove_client client app.ws_clients;
    }

-- for client := range app.wsClients, over the clients there at the start
unfoldable pub send_to_all : (ℕ → WebSocketMessage → Bool) → WebSocketMessage → List ℕ → App → App
send_to_all accepts message [] app = app
send_to_all accepts message (c ∷ cs) app =
    send_to_all accepts message cs (send_to accepts message c app)

unfoldable pub broadcast_update : (ℕ → WebSocketMessage → Bool) → Bytes → GoMap Value → App → App
broadcast_update accepts device_id status app =
    send_to_all accepts (status_update device_id status) app.ws_clients app

unfoldable pub broadcast_mqtt_log : (ℕ → WebSocketMessage → Bool) → LogEntry → App → App
broadcast_mqtt_log accepts entry app = send_to_all accepts (mqtt_log entry) app.ws_clients app

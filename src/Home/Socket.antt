-- ===== src/Home/Socket.antt =====
-- handleWebSocket of cmd/home-automation-server/web.go: it joins, writes the statuses, and then the
-- log, and leaves. Each of the four is under its own lock, so that other handlers may come between
-- them. The errors of WriteJSON are ignored; whether a write succeeds is a parameter.
use mqtt_home_automation.Base.{ℕ, Bool, false, ◌||◌, List, [], ◌∷◌, ◌++◌, ◌==◌, if◌then◌else◌}
use mqtt_home_automation.Maps.{GoMap}
use mqtt_home_automation.Home.State.{
  App, DeviceStatus, LogEntry, WebSocketMessage, status_update, mqtt_log,
}
use mqtt_home_automation.Home.Broadcast.{remove_client}

unfoldable pub is_client : ℕ → List ℕ → Bool
is_client c [] = false
is_client c (d ∷ ds) = d == c || is_client c ds

-- app.wsClients[conn] = true
unfoldable pub add_client : ℕ → List ℕ → List ℕ
unfolding is_client
add_client c cs = if is_client c cs then cs else cs ++ c ∷ []

unfoldable pub status_frames : ℕ → GoMap DeviceStatus → List (ℕ × WebSocketMessage)
status_frames c [] = []
status_frames c ((device_id, d) ∷ m) = (c, status_update device_id d.status) ∷ status_frames c m

unfoldable pub log_frames : ℕ → List LogEntry → List (ℕ × WebSocketMessage)
log_frames c [] = []
log_frames c (e ∷ es) = (c, mqtt_log e) ∷ log_frames c es

-- WriteJSON for each frame; what fails is not written, and the loop goes on.
unfoldable pub written :
    (ℕ → WebSocketMessage → Bool) → List (ℕ × WebSocketMessage) → List (ℕ × WebSocketMessage)
written accepts [] = []
written accepts ((c, m) ∷ fs) =
    let rest = written accepts fs in if accepts c m then (c, m) ∷ rest else rest

-- A connection joins.
unfoldable pub open_socket : ℕ → App → App
unfolding add_client
open_socket c app = record app { ws_clients = add_client c app.ws_clients }

-- The loop under statusMutex.
unfoldable pub send_statuses : (ℕ → WebSocketMessage → Bool) → ℕ → App → App
unfolding written status_frames
send_statuses accepts c app = record app {
  frames = app.frames ++ written accepts (status_frames c app.device_status);
}

-- The loop under mqttLogMutex.
unfoldable pub send_log : (ℕ → WebSocketMessage → Bool) → ℕ → App → App
unfolding written log_frames
send_log accepts c app = record app {
  frames = app.frames ++ written accepts (log_frames c app.log);
}

-- ReadMessage fails: the connection leaves, and is closed.
unfoldable pub close_socket : ℕ → App → App
unfolding remove_client
close_socket c app = record app {
  ws_clients = remove_client c app.ws_clients;
  closed = app.closed ++ c ∷ [];
}

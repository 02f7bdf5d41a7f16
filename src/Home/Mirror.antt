-- ===== src/Home/Mirror.antt =====
-- What a web page of cmd/home-automation-server shows: of each device the last status that came over
-- its socket. The runs of the server after main, in which the device statuses are not initialized
-- again.
pub mod Frames
pub mod Handlers
pub mod Keeps
pub mod Runs
use mqtt_home_automation.Base.{
  ℕ, ◌≡◌, Bool, true, false, ◌&&◌, List, [], ◌∷◌, Option, none, some, ◌==◌, if◌then◌else◌,
}
use mqtt_home_automation.Text.{Bytes, str_eq}
use mqtt_home_automation.Maps.{GoMap, lookup}
use mqtt_home_automation.Home.State.{
  App, DeviceStatus, Value, WebSocketMessage, status_update, mqtt_log,
}
use mqtt_home_automation.Home.Socket.{is_client}
use mqtt_home_automation.Home.Steps.{
  Step, initialize, message, status, control, connect, greet_statuses, greet_log, disconnect, Reach,
  here, next,
}

-- The last status of a device that was written to a connection, `found` before these frames.
abbrev pub last_status :
    ℕ → Bytes → List (ℕ × WebSocketMessage) → Option (GoMap Value) → Option (GoMap Value)
last_status c id [] found = found
last_status c id ((d, status_update k s) ∷ fs) found =
    last_status c id fs (if d == c && str_eq k id then some s else found)
last_status c id ((d, mqtt_log e) ∷ fs) found = last_status c id fs found

-- A status that a device has now.
abbrev pub HasStatus : App → Bytes → GoMap Value → Type 0
HasStatus a id s = (d : DeviceStatus) × (lookup id a.device_status ≡ some d) × (d.status ≡ s)

-- What a connected socket was last written of a device is the status that the device has now.
pub record IsMirrored (a : App) : Type 0 where
  pub shown :
      (c : ℕ) (id : Bytes) (s : GoMap Value)
      → is_client c a.ws_clients ≡ true
      → last_status c id a.frames none ≡ some s
      → HasStatus a id s

unfoldable pub is_handler : {a b : App} → Step a b → Bool
is_handler (initialize a) = false
is_handler (message accepts now topic payload a) = true
is_handler (status accepts decode now device_id topic payload a after e) = true
is_handler (control accepts publishes now method body a) = true
is_handler (connect c a new unused silent) = true
is_handler (greet_statuses accepts c a) = true
is_handler (greet_log accepts c a) = true
is_handler (disconnect c a) = true

-- What the server's handlers reach.
pub data Run (start : App) : App → Type 0 where
  begin : Run start start
  then_step : {a b : App} → Run start a → (s : Step a b) → is_handler s ≡ true → Run start b

pub Run-Reach : {start a : App} → Run start a → Reach start a
Run-Reach begin = here
Run-Reach (then_step r s h) = next (Run-Reach r) s

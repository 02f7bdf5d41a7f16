-- ===== src/Home/Status.antt =====
-- initializeDeviceStatus, handleStatusUpdate and the message handlers of
-- cmd/home-automation-server/mqtt.go. encoding/json is a parameter: `decode` gives the value that a
-- payload decodes to, if it is JSON.
pub mod Updates
use mqtt_home_automation.Base.{ℕ, Bool, List, [], ◌∷◌, Option, none, some}
use mqtt_home_automation.Text.{Bytes, codes}
use mqtt_home_automation.Maps.{GoMap, lookup, insert}
use mqtt_home_automation.Home.State.{App, Device, DeviceStatus, Value, text, WebSocketMessage}
use mqtt_home_automation.Home.Broadcast.{broadcast_update}
use mqtt_home_automation.Home.Log.{add_mqtt_log_entry}

-- A JSON object, or any other JSON value: null, a number, a string, a Boolean, an array.
pub data Json : Type 0 where
  object : GoMap Value → Json
  not_object : Json

-- A handler returns, or it panics.
pub data Handled : Type 0 where
  ran : App → Handled
  panicked : Handled

abbrev pub new_status : Device → DeviceStatus
new_status d = record {
  id = d.id;
  name = d.name;
  category = d.category;
  status = [];
  controls = d.controls;
}

unfoldable pub init_devices : List Device → GoMap DeviceStatus → GoMap DeviceStatus
init_devices [] m = m
init_devices (d ∷ ds) m = init_devices ds (insert d.id (new_status d) m)

unfoldable pub initialize_device_status : App → App
unfolding init_devices
initialize_device_status app = record app {
  device_status = init_devices app.config.devices app.device_status;
}

-- The status before its time is set; the type assertion to an object panics on other JSON.
pub parse_status : Bytes → Option Json → GoMap Value → Option (GoMap Value)
parse_status payload none status = some (insert (codes "value") (text payload) status)
parse_status payload (some (object fields)) status = some fields
parse_status payload (some not_object) status = none

module _ (accepts : ℕ → WebSocketMessage → Bool) (decode : Bytes → Option Json) where
  unfoldable pub store_status : Bytes → Bytes → DeviceStatus → Option (GoMap Value) → App → Handled
  store_status now device_id d none app = panicked
  store_status now device_id d (some status) app =
      let stamped = insert (codes "lastUpdate") (text now) status in
      ran (
        broadcast_update accepts device_id stamped (record app {
          device_status = insert device_id (record d { status = stamped }) app.device_status;
        }))

  unfoldable pub update_device : Bytes → Bytes → Bytes → Option DeviceStatus → App → Handled
  unfolding store_status parse_status
  update_device now device_id payload none app = ran app
  update_device now device_id payload (some d) app =
      store_status now device_id d (parse_status payload (decode payload) d.status) app

  unfoldable pub handle_status_update : Bytes → Bytes → Bytes → App → Handled
  unfolding update_device
  handle_status_update now device_id payload app =
      update_device now device_id payload (lookup device_id app.device_status) app

  -- The handler of a status topic's subscription.
  unfoldable pub on_status_message : Bytes → Bytes → Bytes → Bytes → App → Handled
  on_status_message now device_id topic payload app =
      handle_status_update now device_id payload (add_mqtt_log_entry accepts now topic payload app)

-- ===== src/Home/Main/Early.antt =====
-- The messages of cmd/home-automation-server that come before the device statuses are initialized: the
-- connect handler of connectMQTT subscribes to the status topics, and main calls initializeDeviceStatus
-- only after connectMQTTWithRetry and loadTemplates.
use mqtt_home_automation.Base.{ℕ, ◌≡◌, refl, ap, subst, ◌∙◌, Bool, [], Option, none, some}
use mqtt_home_automation.Text.{Bytes}
use mqtt_home_automation.Maps.{lookup}
use mqtt_home_automation.Home.State.{App, DeviceStatus, LogEntry, WebSocketMessage, mqtt_log}
use mqtt_home_automation.Home.Broadcast.{broadcast_mqtt_log}
use mqtt_home_automation.Home.Broadcast.Delivery.{
  keep, none_kept, clients-send_to_all, send_to_all-SameBesides,
}
use mqtt_home_automation.Home.Log.{add_mqtt_log_entry}
use mqtt_home_automation.Home.Status.{
  Json, Handled, ran, panicked, update_device, handle_status_update, on_status_message,
}
use mqtt_home_automation.Home.Steps.{Reach, here, next, message, status}

-- What messages alone reach.
pub data Early (start : App) : App → Type 0 where
  none_yet : Early start start
  logged :
      {a : App}
      → Early start a
      → (accepts : ℕ → WebSocketMessage → Bool) (now topic payload : Bytes)
      → Early start (add_mqtt_log_entry accepts now topic payload a)
  for_device :
      {a : App}
      → Early start a
      → (accepts : ℕ → WebSocketMessage → Bool) (decode : Bytes → Option Json)
        (now id topic payload : Bytes) (after : App)
      → on_status_message accepts decode now id topic payload a ≡ ran after
      → Early start after

pub Early-Reach : {start a : App} → Early start a → Reach start a
Early-Reach none_yet = here
Early-Reach (logged e accepts now topic payload) =
    next (Early-Reach e) (message accepts now topic payload _)
Early-Reach (for_device e accepts decode now id topic payload after r) =
    next (Early-Reach e) (status accepts decode now id topic payload _ after r)

-- No page is connected, and no device has a status, of those that the other state configures.
pub record IsQuiet (start a : App) : Type 0 where
  pub no_clients : a.ws_clients ≡ []
  pub no_status : a.device_status ≡ []
  pub same_config : a.config ≡ start.config

broadcast-IsQuiet :
    (start : App) (accepts : ℕ → WebSocketMessage → Bool) (e : LogEntry) (a : App)
    → IsQuiet start a
    → IsQuiet start (broadcast_mqtt_log accepts e a)
unfolding broadcast_mqtt_log
broadcast-IsQuiet start accepts e a h =
    let same = send_to_all-SameBesides accepts (mqtt_log e) a.ws_clients a in
    record {
      no_clients =
          clients-send_to_all accepts (mqtt_log e) [] a.ws_clients a refl (none_kept a.ws_clients)
            (rw h.no_clients tt)
          ∙ ap (keep (λ c. accepts c (mqtt_log e))) h.no_clients;
      no_status = same.device_status ∙ h.no_status;
      same_config = same.config ∙ h.same_config;
    }

entry-IsQuiet :
    (start : App) (accepts : ℕ → WebSocketMessage → Bool) (now topic payload : Bytes) (a : App)
    → IsQuiet start a
    → IsQuiet start (add_mqtt_log_entry accepts now topic payload a)
unfolding add_mqtt_log_entry
entry-IsQuiet start accepts now topic payload a h =
    broadcast-IsQuiet start accepts _ _
      (record { no_clients = h.no_clients; no_status = h.no_status; same_config = h.same_config })

abbrev ReturnsQuiet : App → Handled → Type 0
ReturnsQuiet start (ran a) = IsQuiet start a
ReturnsQuiet start panicked = Unit

update_device-IsQuiet :
    (start : App) (accepts : ℕ → WebSocketMessage → Bool) (decode : Bytes → Option Json)
    (now id payload : Bytes) (o : Option DeviceStatus) (a : App)
    → o ≡ none
    → IsQuiet start a
    → ReturnsQuiet start (update_device accepts decode now id payload o a)
unfolding update_device
update_device-IsQuiet start accepts decode now id payload none a e h = h
update_device-IsQuiet start accepts decode now id payload (some d) a e h = absurd (cc e)

lookup-nil : (id : Bytes) → ◌≡◌ {A = Option DeviceStatus} (lookup id []) none
unfolding lookup
lookup-nil id = refl

on_status_message-IsQuiet :
    (start : App) (accepts : ℕ → WebSocketMessage → Bool) (decode : Bytes → Option Json)
    (now id topic payload : Bytes) (a : App)
    → IsQuiet start a
    → ReturnsQuiet start (on_status_message accepts decode now id topic payload a)
unfolding on_status_message handle_status_update
on_status_message-IsQuiet start accepts decode now id topic payload a h =
    let quiet = entry-IsQuiet start accepts now topic payload a h in
    update_device-IsQuiet start accepts decode now id payload _ _
      (ap (lookup id) quiet.no_status ∙ lookup-nil id) quiet

-- Such messages are logged and otherwise dropped.
pub Early-IsQuiet : {start a : App} → IsQuiet start start → Early start a → IsQuiet start a
Early-IsQuiet h none_yet = h
Early-IsQuiet h (logged e accepts now topic payload) =
    entry-IsQuiet _ accepts now topic payload _ (Early-IsQuiet h e)
Early-IsQuiet {start} h (for_device e accepts decode now id topic payload after r) =
    subst (ReturnsQuiet start) r
      (on_status_message-IsQuiet start accepts decode now id topic payload _ (Early-IsQuiet h e))

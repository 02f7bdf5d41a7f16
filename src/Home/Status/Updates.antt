-- ===== src/Home/Status/Updates.antt =====
-- What a status message does to the devices.
use mqtt_home_automation.Base.{
  ℕ, ◌≡◌, ◌≢◌, ◌↔◌, refl, ap, sym, ◌∙◌, Bool, List, [], ◌∷◌, Option, none, some, if◌then◌else◌,
  Bool-cases, eq_of_some, inl, inr,
}
use mqtt_home_automation.Text.{Bytes, codes, str_eq}
use mqtt_home_automation.Maps.{GoMap, lookup, insert}
use mqtt_home_automation.Maps.Laws.{map_laws, lookup-insert}
use mqtt_home_automation.Home.State.{
  App, Device, DeviceStatus, Value, text, WebSocketMessage, status_update,
}
use mqtt_home_automation.Home.Broadcast.{broadcast_update}
use mqtt_home_automation.Home.Broadcast.Delivery.{send_to_all-SameBesides}
use mqtt_home_automation.Home.Status.{
  Json, object, not_object, ran, panicked, new_status, init_devices, initialize_device_status,
  parse_status, store_status, update_device, handle_status_update,
}

-- The last device of an id in the configuration.
abbrev pub last_device : Bytes → List Device → Option Device → Option Device
last_device k [] found = found
last_device k (d ∷ ds) found = last_device k ds (if str_eq d.id k then some d else found)

abbrev pub status_or : Option Device → Option DeviceStatus → Option DeviceStatus
status_or none otherwise = otherwise
status_or (some d) otherwise = some (new_status d)

lookup-init_devices :
    (k : Bytes) (ds : List Device) (m : GoMap DeviceStatus) (found : Option Device)
    (before : Option DeviceStatus)
    → lookup k m ≡ status_or found before
    → lookup k (init_devices ds m) ≡ status_or (last_device k ds found) before
unfolding init_devices
lookup-init_devices k [] m found before h = h
lookup-init_devices k (d ∷ ds) m found before h =
    lookup-init_devices k ds (insert d.id (new_status d) m)
      (if str_eq d.id k then some d else found) before
      (elim (Bool-cases (str_eq d.id k)) [
        | inl e ↦ simp (map_laws, e)
        | inr e ↦ simp (map_laws, e, h)
      ])

-- After the initialisation a device id has the fresh status of the last device of the configuration
-- with that id, and any other key what it had.
pub lookup-initialize_device_status :
    (k : Bytes) (app : App)
    → lookup k (initialize_device_status app).device_status
      ≡ status_or (last_device k app.config.devices none) (lookup k app.device_status)
unfolding initialize_device_status
lookup-initialize_device_status k app =
    lookup-init_devices k app.config.devices app.device_status none (lookup k app.device_status)
      refl

module _ (accepts : ℕ → WebSocketMessage → Bool) (decode : Bytes → Option Json) where
  stored_panics :
      (now device_id payload : Bytes) (d : DeviceStatus) (o : Option Json) (app : App)
      → (store_status accepts decode now device_id d (parse_status payload o d.status) app
          ≡ panicked)
        ↔ (o ≡ some not_object)
  unfolding store_status parse_status
  stored_panics now device_id payload d none app = (λ x. cc, λ x. cc)
  stored_panics now device_id payload d (some (object fields)) app = (λ x. cc, λ x. cc)
  stored_panics now device_id payload d (some not_object) app = (λ x. refl, λ x. refl)

  update_panics :
      (now device_id payload : Bytes) (o : Option DeviceStatus) (app : App)
      → (update_device accepts decode now device_id payload o app ≡ panicked)
        ↔ (((d : DeviceStatus) × (o ≡ some d)) × (decode payload ≡ some not_object))
  unfolding update_device
  update_panics now device_id payload none app = (λ x. cc, λ y. cc (y.0.1))
  update_panics now device_id payload (some d) app =
      let s = stored_panics now device_id payload d (decode payload) app in
      (λ x. ((d, refl), s.0 x), λ y. s.1 y.1)

  -- A status message makes the handler panic exactly if its device is known and its payload is JSON
  -- other than an object, such as a number or a quoted string.
  pub handle_status_update_panics :
      (now device_id payload : Bytes) (app : App)
      → (handle_status_update accepts decode now device_id payload app ≡ panicked) ↔ (
          ((d : DeviceStatus) × (lookup device_id app.device_status ≡ some d))
          × (decode payload ≡ some not_object))
  unfolding handle_status_update
  handle_status_update_panics now device_id payload app =
      update_panics now device_id payload (lookup device_id app.device_status) app

  -- The value of a key that a payload leaves in a status: beside the values that were there, under
  -- "value", if it is no JSON; else the fields of the object.
  abbrev pub value_of : Bytes → Bytes → GoMap Value → Option Json → Option Value
  value_of k payload old none =
      if str_eq (codes "value") k then some (text payload) else lookup k old
  value_of k payload old (some (object fields)) = lookup k fields
  value_of k payload old (some not_object) = none

  -- What the message leaves: the status of its device, stamped, and all others as they were.
  pub record Updated (now device_id payload : Bytes) (d : DeviceStatus) (before after : App)
      : Type 0 where
    pub status : GoMap Value
    pub values :
        (k : Bytes)
        → lookup k status ≡ (
            if str_eq (codes "lastUpdate") k
            then some (text now)
            else value_of k payload d.status (decode payload))
    pub devices :
        (k : Bytes)
        → lookup k after.device_status ≡ (
            if str_eq device_id k
            then some (record d { status = status })
            else lookup k before.device_status)
    pub log : after.log ≡ before.log

  value_of-parse_status :
      (k payload : Bytes) (old status : GoMap Value) (o : Option Json)
      → parse_status payload o old ≡ some status
      → lookup k status ≡ value_of k payload old o
  unfolding parse_status
  value_of-parse_status k payload old status none p =
      ap (lookup k) (sym (eq_of_some p)) ∙ lookup-insert (codes "value") k (text payload) old
  value_of-parse_status k payload old status (some (object fields)) p =
      ap (lookup k) (sym (eq_of_some p))
  value_of-parse_status k payload old status (some not_object) p = cc

  stored_updates :
      (now device_id payload : Bytes) (d : DeviceStatus) (app : App) (status : GoMap Value)
      → parse_status payload (decode payload) d.status ≡ some status
      → (after : App) × (store_status accepts decode now device_id d (some status) app ≡ ran after)
        × Updated now device_id payload d app after
  unfolding store_status broadcast_update parse_status
  stored_updates now device_id payload d app status p =
      let stamped = insert (codes "lastUpdate") (text now) status in
      let stored = record app {
        device_status = insert device_id (record d { status = stamped }) app.device_status;
      } in
      let same =
        send_to_all-SameBesides accepts (status_update device_id stamped) app.ws_clients stored in
      (
        broadcast_update accepts device_id stamped stored,
        refl,
        record {
          status = stamped;
          values = λ k.
              lookup-insert (codes "lastUpdate") k (text now) status
              ∙ rw (value_of-parse_status k payload d.status status (decode payload) p) refl;
          devices =
              λ k. ap (lookup k) same.device_status ∙ lookup-insert device_id k _ app.device_status;
          log = same.log;
        },
      )

  -- A status message for a known device whose payload is no JSON, or a JSON object, is stored under
  -- that device alone. The time is set; a payload that is no JSON is put under "value" beside the
  -- values that were there, and an object replaces them. The log is not changed.
  pub handle_status_update_stores :
      (now device_id payload : Bytes) (d : DeviceStatus) (app : App)
      → lookup device_id app.device_status ≡ some d
      → decode payload ≢ some not_object
      → (after : App) × (handle_status_update accepts decode now device_id payload app ≡ ran after)
        × Updated now device_id payload d app after
  unfolding handle_status_update
  handle_status_update_stores now device_id payload d app l n =
      rw (l, update_device) (parsed (parse_status payload (decode payload) d.status) refl)
    where
      refused : (o : Option Json) → parse_status payload o d.status ≡ none → o ≡ some not_object
      refused none e = unfold parse_status in cc
      refused (some (object fields)) e = unfold parse_status in cc
      refused (some not_object) e = refl

      parsed :
          (o : Option (GoMap Value))
          → parse_status payload (decode payload) d.status ≡ o
          → (after : App) × (store_status accepts decode now device_id d
                (parse_status payload (decode payload) d.status)
                app
              ≡ ran after)
            × Updated now device_id payload d app after
      parsed none e = absurd (n (refused (decode payload) e))
      parsed (some status) e = rw e (stored_updates now device_id payload d app status e)

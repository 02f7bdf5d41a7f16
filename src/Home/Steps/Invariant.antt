-- ===== src/Home/Steps/Invariant.antt =====
-- What holds of the server whatever happens.
use mqtt_home_automation.Base.{
  ℕ, ◌≤◌, refl, subst, Bool, [], ◌∷◌, Option, none, some, arith, All-append, length, length-take,
  Bool-cases, inl, inr,
}
use mqtt_home_automation.Text.{Bytes, codes, str_eq}
use mqtt_home_automation.Maps.{GoMap, lookup}
use mqtt_home_automation.Home.State.{App, LogEntry, WebSocketMessage, DeviceStatus, Value, mqtt_log}
use mqtt_home_automation.Home.Broadcast.{send_to_all, broadcast_update, broadcast_mqtt_log}
use mqtt_home_automation.Home.Broadcast.Delivery.{
  Absent, clients-send_to_all, closed-send_to_all, send_to_all-SameBesides, none_kept,
}
use mqtt_home_automation.Home.Log.{max_size, trim_log, add_mqtt_log_entry}
use mqtt_home_automation.Home.Log.History.{trim_log-take}
use mqtt_home_automation.Home.Status.{
  Json, Handled, ran, initialize_device_status, parse_status, store_status, update_device,
  handle_status_update, on_status_message,
}
use mqtt_home_automation.Home.Control.{
  Request, start_local, publish_control, decoded_control, handle_control,
}
use mqtt_home_automation.Home.Socket.{open_socket, send_statuses, send_log, close_socket}
use mqtt_home_automation.Home.Steps.Clients.{
  AreOpen, IsDistinct-keep, All-keep, kept_apart, All-Absent-append, IsDistinct-append,
  is_client-Absent, remove_client-AreOpen,
}
use mqtt_home_automation.Home.Steps.{
  Step, initialize, message, status, control, connect, greet_statuses, greet_log, disconnect, Reach,
  here, next,
}

pub record IsConsistent (app : App) : Type 0 where
  pub bounded : length app.log ≤ max_size app.config
  pub open_clients : AreOpen app.ws_clients app.closed

-- A broadcast to all clients leaves open clients.
broadcast-AreOpen :
    (accepts : ℕ → WebSocketMessage → Bool) (m : WebSocketMessage) (a : App)
    → AreOpen a.ws_clients a.closed
    → AreOpen
        (send_to_all accepts m a.ws_clients a).ws_clients
        (send_to_all accepts m a.ws_clients a).closed
broadcast-AreOpen accepts m a (d, o) =
    let p : ℕ → Bool = λ c. accepts c m in
    rw
      (
        clients-send_to_all accepts m [] a.ws_clients a refl (none_kept a.ws_clients) d,
        closed-send_to_all accepts m a.ws_clients a,
      )
      (
        IsDistinct-keep p a.ws_clients d,
        All-Absent-append a.closed _ _ (All-keep _ p a.ws_clients o) (kept_apart p a.ws_clients d),
      )

broadcast-IsConsistent :
    (accepts : ℕ → WebSocketMessage → Bool) (m : WebSocketMessage) (a : App)
    → IsConsistent a
    → IsConsistent (send_to_all accepts m a.ws_clients a)
broadcast-IsConsistent accepts m a h =
    let s = send_to_all-SameBesides accepts m a.ws_clients a in
    record {
      bounded = rw (s.log, s.config) h.bounded;
      open_clients = broadcast-AreOpen accepts m a h.open_clients;
    }

pub entry-IsConsistent :
    (accepts : ℕ → WebSocketMessage → Bool) (now topic payload : Bytes) (a : App)
    → IsConsistent a
    → IsConsistent (add_mqtt_log_entry accepts now topic payload a)
unfolding add_mqtt_log_entry broadcast_mqtt_log
entry-IsConsistent accepts now topic payload a h =
    let entry : LogEntry = record { timestamp = now; topic = topic; payload = payload } in
    broadcast-IsConsistent accepts (mqtt_log entry)
      (record a { log = trim_log (max_size a.config) (entry ∷ a.log) })
      (record {
        bounded = rw trim_log-take (omega (arith, length-take (max_size a.config) (entry ∷ a.log)));
        open_clients = h.open_clients;
      })

-- The handler keeps the invariant where it returns.
abbrev ReturnsConsistent : Handled → Type 0
ReturnsConsistent (ran app) = IsConsistent app
ReturnsConsistent _ = Unit

module _ (accepts : ℕ → WebSocketMessage → Bool) (decode : Bytes → Option Json) where
  store-IsConsistent :
      (now device_id : Bytes) (d : DeviceStatus) (o : Option (GoMap Value)) (a : App)
      → IsConsistent a
      → ReturnsConsistent (store_status accepts decode now device_id d o a)
  unfolding store_status broadcast_update
  store-IsConsistent now device_id d none a h = tt
  store-IsConsistent now device_id d (some stamped) a h =
      broadcast-IsConsistent accepts _ _
        (record { bounded = h.bounded; open_clients = h.open_clients })

  update-IsConsistent :
      (now device_id payload : Bytes) (o : Option DeviceStatus) (a : App)
      → IsConsistent a
      → ReturnsConsistent (update_device accepts decode now device_id payload o a)
  unfolding update_device
  update-IsConsistent now device_id payload none a h = h
  update-IsConsistent now device_id payload (some d) a h =
      store-IsConsistent now device_id d (parse_status payload (decode payload) d.status) a h

  status-IsConsistent :
      (now device_id topic payload : Bytes) (a : App)
      → IsConsistent a
      → ReturnsConsistent (on_status_message accepts decode now device_id topic payload a)
  unfolding on_status_message handle_status_update
  status-IsConsistent now device_id topic payload a h =
      let logged = add_mqtt_log_entry accepts now topic payload a in
      update-IsConsistent now device_id payload (lookup device_id logged.device_status) logged
        (entry-IsConsistent accepts now topic payload a h)

pub start_local-IsConsistent :
    (req : Request) (a : App) → IsConsistent a → IsConsistent (start_local req a)
unfolding start_local
start_local-IsConsistent req a h = elim (Bool-cases (str_eq req.local_command [])) [
  | inl e ↦ rw e h
  | inr e ↦ rw e (record { bounded = h.bounded; open_clients = h.open_clients })
]

module _ (accepts : ℕ → WebSocketMessage → Bool) (publishes : Bytes → Bytes → Bool) where
  publish-IsConsistent :
      (now : Bytes) (req : Request) (a : App)
      → IsConsistent a
      → IsConsistent (publish_control accepts publishes now req a).1
  unfolding publish_control
  publish-IsConsistent now req a h = elim (Bool-cases (str_eq req.topic [])) [
    | inl e ↦ rw e h
    | inr e ↦ elim (Bool-cases (publishes req.topic req.payload)) [
      | inl s ↦
          rw (e, s)
            (entry-IsConsistent accepts now _ req.payload _
              (record { bounded = h.bounded; open_clients = h.open_clients }))
      | inr s ↦ rw (e, s) h
    ]
  ]

  decoded-IsConsistent :
      (now : Bytes) (body : Option Request) (a : App)
      → IsConsistent a
      → IsConsistent (decoded_control accepts publishes now body a).1
  unfolding decoded_control
  decoded-IsConsistent now none a h = h
  decoded-IsConsistent now (some req) a h =
      publish-IsConsistent now req (start_local req a) (start_local-IsConsistent req a h)

  control-IsConsistent :
      (now method : Bytes) (body : Option Request) (a : App)
      → IsConsistent a
      → IsConsistent (handle_control accepts publishes now method body a).1
  unfolding handle_control
  control-IsConsistent now method body a h = elim (Bool-cases (str_eq method (codes "POST"))) [
    | inl e ↦ rw e (decoded-IsConsistent now body a h)
    | inr e ↦ rw e h
  ]

connect-IsConsistent :
    (c : ℕ) (a : App)
    → Absent c a.ws_clients
    → Absent c a.closed
    → IsConsistent a
    → IsConsistent (open_socket c a)
unfolding open_socket
connect-IsConsistent c a new unused h = record {
  bounded = h.bounded;
  open_clients = rw (is_client-Absent c a.ws_clients new) (
    IsDistinct-append c a.ws_clients new h.open_clients.0,
    All-append _ a.ws_clients (c ∷ []) h.open_clients.1 (unused, tt),
  );
}

disconnect-IsConsistent : (c : ℕ) (a : App) → IsConsistent a → IsConsistent (close_socket c a)
unfolding close_socket
disconnect-IsConsistent c a h = record {
  bounded = h.bounded;
  open_clients = remove_client-AreOpen c a.ws_clients a.closed h.open_clients;
}

pub Step-IsConsistent : {a b : App} → Step a b → IsConsistent a → IsConsistent b
Step-IsConsistent (initialize a) h =
    unfold initialize_device_status in record { bounded = h.bounded; open_clients = h.open_clients }
Step-IsConsistent (message accepts now topic payload a) h =
    entry-IsConsistent accepts now topic payload a h
Step-IsConsistent (status accepts decode now device_id topic payload a after e) h =
    subst ReturnsConsistent e (status-IsConsistent accepts decode now device_id topic payload a h)
Step-IsConsistent (control accepts publishes now method body a) h =
    control-IsConsistent accepts publishes now method body a h
Step-IsConsistent (connect c a new unused silent) h = connect-IsConsistent c a new unused h
Step-IsConsistent (greet_statuses accepts c a) h =
    unfold send_statuses in record { bounded = h.bounded; open_clients = h.open_clients }
Step-IsConsistent (greet_log accepts c a) h =
    unfold send_log in record { bounded = h.bounded; open_clients = h.open_clients }
Step-IsConsistent (disconnect c a) h = disconnect-IsConsistent c a h

-- From a consistent state, whatever messages, requests and connections come in whatever order: the
-- log never holds more entries than the configuration allows, the connected clients are all
-- different, and none of them has been closed.
pub Reach-IsConsistent :
    (start : App) {a : App} → IsConsistent start → Reach start a → IsConsistent a
Reach-IsConsistent start h here = h
Reach-IsConsistent start h (next r s) = Step-IsConsistent s (Reach-IsConsistent start h r)

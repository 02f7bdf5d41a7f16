-- ===== src/Home/Mirror/Handlers.antt =====
-- What a page shows stays right in every handler of a message, a request or a connection.
use mqtt_home_automation.Base.{
  ℕ, ◌≡◌, ◌⊎◌, sym, subst, ◌∙◌, Bool, true, false, ◌||◌, [], map, Option, none, some, arith, ◌==◌,
  Bool-cases, eq_of_some, inl, inr,
}
use mqtt_home_automation.Text.{Bytes, codes, str_eq}
use mqtt_home_automation.Maps.{GoMap, lookup, insert}
use mqtt_home_automation.Home.State.{App, DeviceStatus, Value, text, WebSocketMessage}
use mqtt_home_automation.Home.Broadcast.Delivery.{Absent, IsDistinct}
use mqtt_home_automation.Home.Log.{add_mqtt_log_entry}
use mqtt_home_automation.Home.Status.{
  Json, Handled, ran, panicked, parse_status, store_status, update_device, handle_status_update,
  on_status_message,
}
use mqtt_home_automation.Home.Control.{
  Request, start_local, publish_control, decoded_control, handle_control,
}
use mqtt_home_automation.Home.Socket.{is_client, open_socket, send_statuses, send_log, close_socket}
use mqtt_home_automation.Home.Steps.{written_to}
use mqtt_home_automation.Home.Spec.Members.{is_client-add_client, is_client-remove_client}
use mqtt_home_automation.Home.Steps.Invariant.{
  IsConsistent, entry-IsConsistent, start_local-IsConsistent,
}
use mqtt_home_automation.Home.Mirror.{last_status, HasStatus}
use mqtt_home_automation.Home.Mirror.Keeps.{
  Mirrors, and_left, entry-Mirrors, status_broadcast-Mirrors, status_broadcast-written,
}
use mqtt_home_automation.Home.Mirror.Frames.{
  last_status-append, last_status-log_frames, last_status-Absent, last_status-status_frames,
}

abbrev pub ReturnsMirrors : Handled → Type 0
ReturnsMirrors (ran a) = Mirrors a
ReturnsMirrors panicked = Unit

module _ (accepts : ℕ → WebSocketMessage → Bool) (decode : Bytes → Option Json) where
  store_status-Mirrors :
      (now id : Bytes) (d : DeviceStatus) (o : Option (GoMap Value)) (a : App)
      → IsDistinct a.ws_clients
      → Mirrors a
      → ReturnsMirrors (store_status accepts decode now id d o a)
  unfolding store_status
  store_status-Mirrors now id d none a distinct h = tt
  store_status-Mirrors now id d (some fields) a distinct h =
      status_broadcast-Mirrors accepts id
        (record d { status = insert (codes "lastUpdate") (text now) fields }) a distinct h

  update_device-Mirrors :
      (now id payload : Bytes) (o : Option DeviceStatus) (a : App)
      → IsDistinct a.ws_clients
      → Mirrors a
      → ReturnsMirrors (update_device accepts decode now id payload o a)
  unfolding update_device
  update_device-Mirrors now id payload none a distinct h = h
  update_device-Mirrors now id payload (some d) a distinct h =
      store_status-Mirrors now id d (parse_status payload (decode payload) d.status) a distinct h

  pub on_status_message-Mirrors :
      (now id topic payload : Bytes) (a : App)
      → IsConsistent a
      → Mirrors a
      → ReturnsMirrors (on_status_message accepts decode now id topic payload a)
  unfolding on_status_message handle_status_update
  on_status_message-Mirrors now id topic payload a ok h =
      let logged = add_mqtt_log_entry accepts now topic payload a in
      update_device-Mirrors now id payload (lookup id logged.device_status) logged
        (entry-IsConsistent accepts now topic payload a ok).open_clients.0
        (entry-Mirrors accepts now topic payload a ok.open_clients.0 h)

start_local-Mirrors : (req : Request) (a : App) → Mirrors a → Mirrors (start_local req a)
unfolding start_local
start_local-Mirrors req a h = elim (Bool-cases (str_eq req.local_command [])) [
  | inl e ↦ rw e h
  | inr e ↦ rw e (record { mirrored = record { shown = h.mirrored.shown }; once = h.once })
]

module _ (accepts : ℕ → WebSocketMessage → Bool) (publishes : Bytes → Bytes → Bool) where
  publish_control-Mirrors :
      (now : Bytes) (req : Request) (a : App)
      → IsConsistent a
      → Mirrors a
      → Mirrors (publish_control accepts publishes now req a).1
  unfolding publish_control
  publish_control-Mirrors now req a ok h = elim (Bool-cases (str_eq req.topic [])) [
    | inl e ↦ rw e h
    | inr e ↦ elim (Bool-cases (publishes req.topic req.payload)) [
      | inl p ↦
          rw (e, p)
            (entry-Mirrors accepts now _ req.payload _ ok.open_clients.0
              (record { mirrored = record { shown = h.mirrored.shown }; once = h.once }))
      | inr p ↦ rw (e, p) h
    ]
  ]

  pub handle_control-Mirrors :
      (now method : Bytes) (body : Option Request) (a : App)
      → IsConsistent a
      → Mirrors a
      → Mirrors (handle_control accepts publishes now method body a).1
  unfolding handle_control decoded_control
  handle_control-Mirrors now method none a ok h = elim (Bool-cases (str_eq method (codes "POST"))) [
    | inl e ↦ rw e h
    | inr e ↦ rw e h
  ]
  handle_control-Mirrors now method (some req) a ok h =
      elim (Bool-cases (str_eq method (codes "POST"))) [
        | inl e ↦ rw e (
            publish_control-Mirrors now req (start_local req a) (start_local-IsConsistent req a ok)
              (start_local-Mirrors req a h))
        | inr e ↦ rw e h
      ]

pub open_socket-Mirrors :
    (c : ℕ) (a : App) → Absent c (map written_to a.frames) → Mirrors a → Mirrors (open_socket c a)
unfolding open_socket
open_socket-Mirrors c a silent h = record {
  once = h.once;
  mirrored = record {
    shown = λ x id s is_there was.
        joined x id s (sym (is_client-add_client c x a.ws_clients) ∙ is_there) was
          (Bool-cases (c == x));
  };
}
  where
    joined :
        (x : ℕ) (id : Bytes) (s : GoMap Value)
        → (is_client x a.ws_clients || (c == x)) ≡ true
        → last_status x id a.frames none ≡ some s
        → ((c == x) ≡ true) ⊎ ((c == x) ≡ false)
        → HasStatus a id s
    joined x id s is_there was (inl e) =
        let same : x ≡ c = ground arith in
        absurd (
          cc (
            last_status-Absent x id a.frames none
                (subst (λ y. Absent y (map written_to a.frames)) (sym same) silent),
            was,
          ))
    joined x id s is_there was (inr e) =
        let old : is_client x a.ws_clients ≡ true = ground (arith, e, is_there) in
        h.mirrored.shown x id s old was

module _ (accepts : ℕ → WebSocketMessage → Bool) (c : ℕ) (a : App) where
  pub send_statuses-Mirrors : Mirrors a → Mirrors (send_statuses accepts c a)
  unfolding send_statuses
  send_statuses-Mirrors h = record {
    once = h.once;
    mirrored = record {
      shown = λ x id s is_there was.
          let last = sym (last_status-append x id a.frames _ none) ∙ was in
          elim (last_status-status_frames accepts x c id a.device_status _ h.once) [
            | inl e ↦ h.mirrored.shown x id s is_there (sym e ∙ last)
            | inr (d, known, e) ↦ (d, known, eq_of_some (sym e ∙ last))
          ];
    };
  }

  pub send_log-Mirrors : Mirrors a → Mirrors (send_log accepts c a)
  unfolding send_log
  send_log-Mirrors h = record {
    once = h.once;
    mirrored = record {
      shown = λ x id s is_there was. h.mirrored.shown x id s is_there (
          sym (last_status-log_frames x id accepts c a.log _)
          ∙ sym (last_status-append x id a.frames _ none)
          ∙ was);
    };
  }

pub close_socket-Mirrors : (c : ℕ) (a : App) → Mirrors a → Mirrors (close_socket c a)
unfolding close_socket
close_socket-Mirrors c a h = record {
  once = h.once;
  mirrored = record {
    shown = λ x id s is_there was.
        h.mirrored.shown x id s
          (and_left _ _ (sym (is_client-remove_client c x a.ws_clients) ∙ is_there)) was;
  };
}

-- All sockets that are still connected have been written a status of the device.
abbrev ReturnsWritten : Bytes → Handled → Type 0
ReturnsWritten id (ran a) =
    (c : ℕ)
    → is_client c a.ws_clients ≡ true
    → (s : GoMap Value) × (last_status c id a.frames none ≡ some s)
ReturnsWritten id panicked = Unit

module _ (accepts : ℕ → WebSocketMessage → Bool) (decode : Bytes → Option Json) where
  store_status-written :
      (now id : Bytes) (d : DeviceStatus) (o : Option (GoMap Value)) (a : App)
      → IsDistinct a.ws_clients
      → ReturnsWritten id (store_status accepts decode now id d o a)
  unfolding store_status
  store_status-written now id d none a distinct = tt
  store_status-written now id d (some fields) a distinct = λ c is_there.
      let stamped = insert (codes "lastUpdate") (text now) fields in
      (
        stamped,
        status_broadcast-written accepts id (record d { status = stamped }) a c distinct is_there,
      )

  pub handle_status_update-written :
      (now id payload : Bytes) (d : DeviceStatus) (a : App) {after : App}
      → IsDistinct a.ws_clients
      → lookup id a.device_status ≡ some d
      → handle_status_update accepts decode now id payload a ≡ ran after
      → (c : ℕ) → is_client c after.ws_clients ≡ true
      → (s : GoMap Value) × (last_status c id after.frames none ≡ some s)
  unfolding handle_status_update update_device
  handle_status_update-written now id payload d a distinct known returns =
      subst (ReturnsWritten id) (rw known at returns)
        (store_status-written now id d (parse_status payload (decode payload) d.status) a distinct)

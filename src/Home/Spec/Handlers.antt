-- ===== src/Home/Spec/Handlers.antt =====
-- What the handlers of messages and requests change, as the specification sees it.
use mqtt_home_automation.Base.{
  ℕ, ◌≡◌, refl, ap, subst, ◌∙◌, Bool, ◌&&◌, [], ◌∷◌, ◌++◌, Option, none, some, Bool-cases, inl, inr,
}
use mqtt_home_automation.Text.{Bytes, codes, str_eq}
use mqtt_home_automation.Maps.{GoMap, lookup, insert}
use mqtt_home_automation.Maps.Laws.{lookup-insert}
use mqtt_home_automation.Home.State.{
  App, DeviceStatus, LogEntry, Value, text, WebSocketMessage, mqtt_log, status_update,
}
use mqtt_home_automation.Home.Broadcast.{send_to_all, broadcast_update, broadcast_mqtt_log}
use mqtt_home_automation.Home.Broadcast.Delivery.{
  IsDistinct, none_kept, clients-send_to_all, send_to_all-SameBesides,
}
use mqtt_home_automation.Home.Log.{max_size, trim_log, add_mqtt_log_entry}
use mqtt_home_automation.Home.Log.History.{trim_log-take}
use mqtt_home_automation.Home.Status.{
  Json, Handled, ran, panicked, parse_status, store_status, update_device, handle_status_update,
  on_status_message,
}
use mqtt_home_automation.Home.Control.{
  Request, start_local, publish_control, decoded_control, handle_control,
}
use mqtt_home_automation.Home.Socket.{is_client}
use mqtt_home_automation.Home.Spec.Members.{is_client-keep}
use mqtt_home_automation.Home.Steps.Invariant.{
  IsConsistent, entry-IsConsistent, start_local-IsConsistent,
}
use mqtt_home_automation.Home.Spec.{View, Entered, Stored, entered, stored, Changes, same, more}

-- What a state is seen as.
abbrev pub view : App → View
view a = record {
  status = λ k. lookup k a.device_status;
  log = a.log;
  limit = max_size a.config;
  connected = λ c. is_client c a.ws_clients;
}

-- The sockets that are left after a broadcast.
connected-send_to_all :
    (accepts : ℕ → WebSocketMessage → Bool) (m : WebSocketMessage) (a : App)
    → IsDistinct a.ws_clients
    → (c : ℕ)
    → is_client c (send_to_all accepts m a.ws_clients a).ws_clients
      ≡ (is_client c a.ws_clients && accepts c m)
connected-send_to_all accepts m a d c =
    ap (is_client c)
      (clients-send_to_all accepts m [] a.ws_clients a refl (none_kept a.ws_clients) d)
    ∙ is_client-keep c (λ b. accepts b m) a.ws_clients

pub add_mqtt_log_entry-Entered :
    (accepts : ℕ → WebSocketMessage → Bool) (now topic payload : Bytes) (a : App)
    → IsDistinct a.ws_clients
    → let entry : LogEntry = record { timestamp = now; topic = topic; payload = payload } in
      Entered entry
        (λ c. accepts c (mqtt_log entry))
        (view a)
        (view (add_mqtt_log_entry accepts now topic payload a))
unfolding add_mqtt_log_entry broadcast_mqtt_log
add_mqtt_log_entry-Entered accepts now topic payload a d =
    let entry : LogEntry = record { timestamp = now; topic = topic; payload = payload } in
    let trimmed = record a { log = trim_log (max_size a.config) (entry ∷ a.log) } in
    let s = send_to_all-SameBesides accepts (mqtt_log entry) a.ws_clients trimmed in
    record {
      limit = ap max_size s.config;
      log = s.log ∙ trim_log-take (max_size a.config) (entry ∷ a.log);
      status = λ k. ap (lookup k) s.device_status;
      connected = connected-send_to_all accepts (mqtt_log entry) trimmed d;
    }

broadcast_update-Stored :
    (accepts : ℕ → WebSocketMessage → Bool) (id : Bytes) (d : DeviceStatus) (a : App)
    → IsDistinct a.ws_clients
    → Stored id d
        (λ c. accepts c (status_update id d.status))
        (view a)
        (view (
          broadcast_update accepts id d.status
            (record a { device_status = insert id d a.device_status })))
unfolding broadcast_update
broadcast_update-Stored accepts id d a h =
    let put = record a { device_status = insert id d a.device_status } in
    let s = send_to_all-SameBesides accepts (status_update id d.status) a.ws_clients put in
    record {
      limit = ap max_size s.config;
      log = s.log;
      status = λ k. ap (lookup k) s.device_status ∙ lookup-insert id k d a.device_status;
      connected = connected-send_to_all accepts (status_update id d.status) put h;
    }

-- The changes that lead to what a handler returns, if it returns.
abbrev pub Returns : View → Handled → Type 0
Returns v (ran a) = Changes v (view a)
Returns v panicked = Unit

module _ (accepts : ℕ → WebSocketMessage → Bool) (decode : Bytes → Option Json) where
  store_status-Changes :
      (now id : Bytes) (d : DeviceStatus) (o : Option (GoMap Value)) (v : View) (a : App)
      → IsDistinct a.ws_clients
      → Changes v (view a)
      → Returns v (store_status accepts decode now id d o a)
  unfolding store_status
  store_status-Changes now id d none v a h c = tt
  store_status-Changes now id d (some fields) v a h c =
      let d' = record d { status = insert (codes "lastUpdate") (text now) fields } in
      more c (stored id d' _ (broadcast_update-Stored accepts id d' a h))

  update_device-Changes :
      (now id payload : Bytes) (o : Option DeviceStatus) (v : View) (a : App)
      → IsDistinct a.ws_clients
      → Changes v (view a)
      → Returns v (update_device accepts decode now id payload o a)
  unfolding update_device
  update_device-Changes now id payload none v a h c = c
  update_device-Changes now id payload (some d) v a h c =
      store_status-Changes now id d (parse_status payload (decode payload) d.status) v a h c

  pub on_status_message-Changes :
      (now id topic payload : Bytes) (a : App)
      → IsConsistent a
      → Returns (view a) (on_status_message accepts decode now id topic payload a)
  unfolding on_status_message handle_status_update
  on_status_message-Changes now id topic payload a h =
      let logged = add_mqtt_log_entry accepts now topic payload a in
      update_device-Changes now id payload (lookup id logged.device_status) (view a) logged
        (entry-IsConsistent accepts now topic payload a h).open_clients.0
        (more same
          (entered _ _ (add_mqtt_log_entry-Entered accepts now topic payload a h.open_clients.0)))

view-start_local : (req : Request) (a : App) → view (start_local req a) ≡ view a
unfolding start_local
view-start_local req a = elim (Bool-cases (str_eq req.local_command [])) [
  | inl e ↦ rw e
  | inr e ↦ rw e
]

publish_control-Changes :
    (accepts : ℕ → WebSocketMessage → Bool) (publishes : Bytes → Bytes → Bool) (now : Bytes)
    (req : Request) (v : View) (a : App)
    → IsConsistent a
    → view a ≡ v
    → Changes v (view (publish_control accepts publishes now req a).1)
unfolding publish_control
publish_control-Changes accepts publishes now req v a h s =
    let stays : Changes v (view a) = subst (λ (w : View). Changes w (view a)) s same in
    elim (Bool-cases (str_eq req.topic [])) [
      | inl e ↦ rw e stays
      | inr e ↦ elim (Bool-cases (publishes req.topic req.payload)) [
        | inl p ↦
            let sent = record a { published = a.published ++ (req.topic, req.payload) ∷ [] } in
            rw (e, p)
              (more stays (
                entered _ _ (
                  add_mqtt_log_entry-Entered accepts now (req.topic ++ codes " (OUT)") req.payload
                    sent h.open_clients.0)))
        | inr p ↦ rw (e, p) stays
      ]
    ]

pub handle_control-Changes :
    (accepts : ℕ → WebSocketMessage → Bool) (publishes : Bytes → Bytes → Bool) (now method : Bytes)
    (body : Option Request) (a : App)
    → IsConsistent a
    → Changes (view a) (view (handle_control accepts publishes now method body a).1)
unfolding handle_control decoded_control
handle_control-Changes accepts publishes now method none a h =
    elim (Bool-cases (str_eq method (codes "POST"))) [ inl e ↦ rw e same | inr e ↦ rw e same ]
handle_control-Changes accepts publishes now method (some req) a h =
    elim (Bool-cases (str_eq method (codes "POST"))) [
      | inl e ↦ rw e (
          publish_control-Changes accepts publishes now req (view a) (start_local req a)
            (start_local-IsConsistent req a h) (view-start_local req a))
      | inr e ↦ rw e same
    ]

-- ===== src/Home/Log/History.antt =====
-- The log is the newest part of the history.
use mqtt_home_automation.Base.{
  ℕ, ◌≡◌, ap, sym, ◌∙◌, Bool, List, [], ◌∷◌, arith, length, take, take_all, take-cons-take, ltb,
  Bool-cases, inl, inr,
}
use mqtt_home_automation.Text.{Bytes}
use mqtt_home_automation.Home.State.{App, LogEntry, WebSocketMessage, mqtt_log}
use mqtt_home_automation.Home.Broadcast.{broadcast_mqtt_log}
use mqtt_home_automation.Home.Broadcast.Delivery.{send_to_all-SameBesides}
use mqtt_home_automation.Home.Log.{max_size, trim_log, add_mqtt_log_entry}

pub trim_log-take : (n : ℕ) (l : List LogEntry) → trim_log n l ≡ take n l
unfolding trim_log
trim_log-take n l = elim (Bool-cases (ltb n (length l))) [
  | inl e ↦ rw e
  | inr e ↦ rw e (sym (take_all n l (ground arith)))
]

module _ (accepts : ℕ → WebSocketMessage → Bool) where
  pub log-add_mqtt_log_entry :
      (now topic payload : Bytes) (app : App)
      → (add_mqtt_log_entry accepts now topic payload app).log
        ≡ take
            (max_size app.config)
            (record { timestamp = now; topic = topic; payload = payload } ∷ app.log)
  unfolding add_mqtt_log_entry broadcast_mqtt_log
  log-add_mqtt_log_entry now topic payload app =
      let entry : LogEntry = record { timestamp = now; topic = topic; payload = payload } in
      let trimmed = record app { log = trim_log (max_size app.config) (entry ∷ app.log) } in
      (send_to_all-SameBesides accepts (mqtt_log entry) app.ws_clients trimmed).log
      ∙ trim_log-take (max_size app.config) (entry ∷ app.log)

  config-add_mqtt_log_entry :
      (now topic payload : Bytes) (app : App)
      → (add_mqtt_log_entry accepts now topic payload app).config ≡ app.config
  unfolding add_mqtt_log_entry broadcast_mqtt_log
  config-add_mqtt_log_entry now topic payload app =
      (send_to_all-SameBesides accepts _ app.ws_clients _).config

  -- The entries of a run, added one after the other.
  abbrev pub add_entries : List LogEntry → App → App
  add_entries [] app = app
  add_entries (e ∷ es) app =
      add_entries es (add_mqtt_log_entry accepts e.timestamp e.topic e.payload app)

  -- A history, the newest entry first, with more entries that came later.
  abbrev newest_first : List LogEntry → List LogEntry → List LogEntry
  newest_first [] history = history
  newest_first (e ∷ es) history = newest_first es (e ∷ history)

  -- If the log is the newest part of a history, as long as the configuration allows, then after any
  -- entries it is the newest part, as long as that, of the history with these entries.
  pub log-add_entries :
      (es history : List LogEntry) (app : App)
      → app.log ≡ take (max_size app.config) history
      → (add_entries es app).log ≡ take (max_size app.config) (newest_first es history)
  log-add_entries [] history app h = h
  log-add_entries (e ∷ es) history app h =
      let app' = add_mqtt_log_entry accepts e.timestamp e.topic e.payload app in
      let same = config-add_mqtt_log_entry e.timestamp e.topic e.payload app in
      let size : max_size app'.config ≡ max_size app.config = ap max_size same in
      let now : app'.log ≡ take (max_size app.config) (e ∷ history) =
        log-add_mqtt_log_entry e.timestamp e.topic e.payload app
        ∙ ap (λ (l : List LogEntry). take (max_size app.config) (e ∷ l)) h
        ∙ take-cons-take (max_size app.config) e history in
      rw size at (log-add_entries es (e ∷ history) app' (rw size now))

  -- What a new entry leaves alone.
  pub SameBesides-add_mqtt_log_entry :
      (now topic payload : Bytes) (app : App)
      → ((add_mqtt_log_entry accepts now topic payload app).commands ≡ app.commands)
        × ((add_mqtt_log_entry accepts now topic payload app).published ≡ app.published)
        × ((add_mqtt_log_entry accepts now topic payload app).device_status ≡ app.device_status)
  unfolding add_mqtt_log_entry broadcast_mqtt_log
  SameBesides-add_mqtt_log_entry now topic payload app =
      let entry : LogEntry = record { timestamp = now; topic = topic; payload = payload } in
      let s =
        send_to_all-SameBesides accepts (mqtt_log entry) app.ws_clients
          (record app { log = trim_log (max_size app.config) (entry ∷ app.log) }) in
      (s.commands, s.published, s.device_status)

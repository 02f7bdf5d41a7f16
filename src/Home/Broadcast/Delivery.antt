-- ===== src/Home/Broadcast/Delivery.antt =====
-- Who gets a message, and who stays connected.
use mqtt_home_automation.Base.{
  ℕ, ◌≡◌, ◌≢◌, refl, sym, ◌∙◌, Bool, not, List, [], ◌∷◌, ◌++◌, append-nil, append_assoc, arith,
  if◌then◌else◌, Bool-cases, inl, inr, All, All-append,
}
use mqtt_home_automation.Home.State.{App, WebSocketMessage, mqtt_log, LogEntry}
use mqtt_home_automation.Home.Broadcast.{remove_client, send_to, send_to_all, broadcast_mqtt_log}

-- The clients that take the message, and those that do not.
abbrev pub keep : (ℕ → Bool) → List ℕ → List ℕ
keep p [] = []
keep p (c ∷ cs) = if p c then c ∷ keep p cs else keep p cs

abbrev pub to_each : WebSocketMessage → List ℕ → List (ℕ × WebSocketMessage)
to_each message [] = []
to_each message (c ∷ cs) = (c, message) ∷ to_each message cs

-- No number stands twice.
abbrev pub Absent : ℕ → List ℕ → Type 0
Absent c = All (λ d. d ≢ c)

abbrev pub IsDistinct : List ℕ → Type 0
IsDistinct [] = Unit
IsDistinct (c ∷ cs) = Absent c cs × IsDistinct cs

add_kept :
    (c : ℕ) (kept ds : List ℕ)
    → All (λ b. Absent b kept) ds
    → Absent c ds
    → All (λ b. Absent b (kept ++ c ∷ [])) ds
add_kept c kept [] h n = tt
add_kept c kept (b ∷ ds) (hb, h) (n, ns) =
    (All-append _ kept (c ∷ []) hb (λ x. n (sym x), tt), add_kept c kept ds h ns)

remove_client-Absent : (c : ℕ) (ds : List ℕ) → Absent c ds → remove_client c ds ≡ ds
unfolding remove_client
remove_client-Absent c [] n = refl
remove_client-Absent c (b ∷ ds) (n, ns) = ground (arith, remove_client-Absent c ds ns)

remove_client-append :
    (c : ℕ) (ks ds : List ℕ) → Absent c ks → Absent c ds → remove_client c (ks ++ c ∷ ds) ≡ ks ++ ds
unfolding remove_client
remove_client-append c [] ds n m = ground (arith, remove_client-Absent c ds m)
remove_client-append c (k ∷ ks) ds (n, ns) m = ground (arith, remove_client-append c ks ds ns m)

pub none_kept : (cs : List ℕ) → All (λ c. Absent c []) cs
none_kept [] = tt
none_kept (c ∷ cs) = (tt, none_kept cs)

module _ (accepts : ℕ → WebSocketMessage → Bool) (message : WebSocketMessage) where
  takes : ℕ → Bool
  takes c = accepts c message

  -- What a broadcast leaves alone.
  pub record SameBesides (a b : App) : Type 0 where
    pub config : b.config ≡ a.config
    pub device_status : b.device_status ≡ a.device_status
    pub log : b.log ≡ a.log
    pub commands : b.commands ≡ a.commands
    pub published : b.published ≡ a.published

  send_to-SameBesides : (c : ℕ) (a : App) → SameBesides a (send_to accepts message c a)
  unfolding send_to
  send_to-SameBesides c a = ground arith

  pub send_to_all-SameBesides :
      (cs : List ℕ) (a : App) → SameBesides a (send_to_all accepts message cs a)
  unfolding send_to_all
  send_to_all-SameBesides [] a = record {
    config = refl;
    device_status = refl;
    log = refl;
    commands = refl;
    published = refl;
  }
  send_to_all-SameBesides (c ∷ cs) a =
      let s = send_to-SameBesides c a in
      let r = send_to_all-SameBesides cs (send_to accepts message c a) in
      record {
        config = r.config ∙ s.config;
        device_status = r.device_status ∙ s.device_status;
        log = r.log ∙ s.log;
        commands = r.commands ∙ s.commands;
        published = r.published ∙ s.published;
      }

  frames-send_to :
      (c : ℕ) (a : App)
      → (send_to accepts message c a).frames
        ≡ a.frames ++ (if accepts c message then (c, message) ∷ [] else [])
  unfolding send_to
  frames-send_to c a = elim (Bool-cases (accepts c message)) [
    | inl e ↦ rw e
    | inr e ↦ rw e (sym (append-nil a.frames))
  ]

  closed-send_to :
      (c : ℕ) (a : App)
      → (send_to accepts message c a).closed
        ≡ a.closed ++ (if accepts c message then [] else c ∷ [])
  unfolding send_to
  closed-send_to c a = elim (Bool-cases (accepts c message)) [
    | inl e ↦ rw e (sym (append-nil a.closed))
    | inr e ↦ rw e
  ]

  clients-send_to :
      (c : ℕ) (a : App)
      → (send_to accepts message c a).ws_clients
        ≡ (if accepts c message then a.ws_clients else remove_client c a.ws_clients)
  unfolding send_to
  clients-send_to c a = elim (Bool-cases (accepts c message)) [ inl e ↦ rw e | inr e ↦ rw e ]

  pub frames-send_to_all :
      (cs : List ℕ) (a : App)
      → (send_to_all accepts message cs a).frames
        ≡ a.frames ++ to_each message (keep (λ c. accepts c message) cs)
  unfolding send_to_all
  frames-send_to_all [] a = sym (append-nil a.frames)
  frames-send_to_all (c ∷ cs) a =
      frames-send_to_all cs (send_to accepts message c a) ∙ elim (Bool-cases (accepts c message)) [
        | inl e ↦ rw (frames-send_to, e) (append_assoc a.frames ((c, message) ∷ []) _)
        | inr e ↦ rw (frames-send_to, e) (append_assoc a.frames [] _)
      ]

  pub closed-send_to_all :
      (cs : List ℕ) (a : App)
      → (send_to_all accepts message cs a).closed
        ≡ a.closed ++ keep (λ c. not (accepts c message)) cs
  unfolding send_to_all
  closed-send_to_all [] a = sym (append-nil a.closed)
  closed-send_to_all (c ∷ cs) a =
      closed-send_to_all cs (send_to accepts message c a) ∙ elim (Bool-cases (accepts c message)) [
        | inl e ↦ rw (closed-send_to, e) (append_assoc a.closed [] _)
        | inr e ↦ rw (closed-send_to, e) (append_assoc a.closed (c ∷ []) _)
      ]

  -- The loop deletes what it has closed, behind the clients it has kept.
  pub clients-send_to_all :
      (kept cs : List ℕ) (a : App)
      → a.ws_clients ≡ kept ++ cs
      → All (λ c. Absent c kept) cs
      → IsDistinct cs
      → (send_to_all accepts message cs a).ws_clients ≡ kept ++ keep (λ c. accepts c message) cs
  unfolding send_to_all
  clients-send_to_all kept [] a e h d = e
  clients-send_to_all kept (c ∷ cs) a e (hc, h) (dc, d) = elim (Bool-cases (accepts c message)) [
    | inl t ↦ rw t (
        clients-send_to_all (kept ++ c ∷ []) cs (send_to accepts message c a)
          (clients-send_to c a ∙ rw t (e ∙ sym (append_assoc kept (c ∷ []) cs)))
          (add_kept c kept cs h dc) d
        ∙ append_assoc kept (c ∷ []) _)
    | inr t ↦ rw t (
        clients-send_to_all kept cs (send_to accepts message c a)
          (clients-send_to c a ∙ rw (t, e) (remove_client-append c kept cs hc dc)) h d)
  ]

-- A broadcast to connections that are all different writes the message to exactly those that take
-- it, in order, keeps exactly these connected, closes exactly the others, and changes nothing else.
pub broadcast_mqtt_log_delivers :
    (accepts : ℕ → WebSocketMessage → Bool) (entry : LogEntry) (a : App)
    → IsDistinct a.ws_clients
    → ((broadcast_mqtt_log accepts entry a).frames
        ≡ a.frames
          ++ to_each (mqtt_log entry) (keep (λ c. accepts c (mqtt_log entry)) a.ws_clients))
      × ((broadcast_mqtt_log accepts entry a).ws_clients
          ≡ keep (λ c. accepts c (mqtt_log entry)) a.ws_clients)
      × ((broadcast_mqtt_log accepts entry a).closed
          ≡ a.closed ++ keep (λ c. not (accepts c (mqtt_log entry))) a.ws_clients)
      × SameBesides accepts (mqtt_log entry) a (broadcast_mqtt_log accepts entry a)
unfolding broadcast_mqtt_log
broadcast_mqtt_log_delivers accepts entry a d =
    let m = mqtt_log entry in
    (
      frames-send_to_all accepts m a.ws_clients a,
      clients-send_to_all accepts m [] a.ws_clients a refl (none_kept a.ws_clients) d,
      closed-send_to_all accepts m a.ws_clients a,
      send_to_all-SameBesides accepts m a.ws_clients a,
    )

-- ===== src/Home/Mirror/Frames.antt =====
-- The last status among the frames of each handler.
use mqtt_home_automation.Base.{
  ℕ, ◌≡◌, ◌⊎◌, refl, ap, ◌∙◌, Bool, true, false, ◌&&◌, List, [], ◌∷◌, ◌++◌, map, Option, none, some,
  arith, ◌==◌, if◌then◌else◌, Bool-cases, eq_of_some, inl, inr,
}
use mqtt_home_automation.Text.{Bytes, str_eq}
use mqtt_home_automation.Text.Equality.{str_eq_iff, eq_of_str_eq}
use mqtt_home_automation.Maps.{GoMap, lookup, insert}
use mqtt_home_automation.Maps.Laws.{lookup-insert}
use mqtt_home_automation.Home.State.{
  DeviceStatus, LogEntry, Value, WebSocketMessage, status_update, mqtt_log,
}
use mqtt_home_automation.Home.Broadcast.Delivery.{Absent, to_each}
use mqtt_home_automation.Home.Socket.{is_client, status_frames, log_frames, written}
use mqtt_home_automation.Home.Steps.{written_to}
use mqtt_home_automation.Home.Mirror.{last_status}

module _ (c : ℕ) (id : Bytes) where
  pub last_status-append :
      (fs gs : List (ℕ × WebSocketMessage)) (found : Option (GoMap Value))
      → last_status c id (fs ++ gs) found ≡ last_status c id gs (last_status c id fs found)
  last_status-append [] gs found = refl
  last_status-append ((d, status_update k s) ∷ fs) gs found = last_status-append fs gs _
  last_status-append ((d, mqtt_log e) ∷ fs) gs found = last_status-append fs gs found

  pub last_status-to_each_log :
      (e : LogEntry) (cs : List ℕ) (found : Option (GoMap Value))
      → last_status c id (to_each (mqtt_log e) cs) found ≡ found
  last_status-to_each_log e [] found = refl
  last_status-to_each_log e (d ∷ cs) found = last_status-to_each_log e cs found

  pub last_status-to_each :
      (k : Bytes) (s : GoMap Value) (cs : List ℕ) (found : Option (GoMap Value))
      → last_status c id (to_each (status_update k s) cs) found
        ≡ (if is_client c cs && str_eq k id then some s else found)
  unfolding is_client
  last_status-to_each k s [] found = refl
  last_status-to_each k s (d ∷ cs) found =
      last_status-to_each k s cs (if d == c && str_eq k id then some s else found) ∙ ground arith

  pub last_status-log_frames :
      (accepts : ℕ → WebSocketMessage → Bool) (d : ℕ) (es : List LogEntry)
      (found : Option (GoMap Value))
      → last_status c id (written accepts (log_frames d es)) found ≡ found
  unfolding written log_frames
  last_status-log_frames accepts d [] found = refl
  last_status-log_frames accepts d (e ∷ es) found = elim (Bool-cases (accepts d (mqtt_log e))) [
    | inl b ↦ rw b (last_status-log_frames accepts d es found)
    | inr b ↦ rw b (last_status-log_frames accepts d es found)
  ]

  -- A socket that nothing was written to.
  pub last_status-Absent :
      (fs : List (ℕ × WebSocketMessage)) (found : Option (GoMap Value))
      → Absent c (map written_to fs)
      → last_status c id fs found ≡ found
  last_status-Absent [] found h = refl
  last_status-Absent ((d, status_update k s) ∷ fs) found (n, h) =
      let other : (d == c) ≡ false = ground arith in
      ap (λ b. last_status c id fs (if b && str_eq k id then some s else found)) other
      ∙ last_status-Absent fs found h
  last_status-Absent ((d, mqtt_log e) ∷ fs) found (n, h) = last_status-Absent fs found h

-- No key stands twice, as in any map.
abbrev pub HasKeysOnce : {V : Type 0} → GoMap V → Type 0
HasKeysOnce [] = Unit
HasKeysOnce ((k, v) ∷ m) = (lookup k m ≡ none) × HasKeysOnce m

pub insert-HasKeysOnce :
    {V : Type 0} (k : Bytes) (v : V) (m : GoMap V) → HasKeysOnce m → HasKeysOnce (insert k v m)
unfolding insert lookup
insert-HasKeysOnce k v [] h = (refl, tt)
insert-HasKeysOnce k v ((j, w) ∷ m) (hj, h) = elim (Bool-cases (str_eq j k)) [
  | inl e ↦ rw e (hj, h)
  | inr e ↦
      let other : str_eq k j ≡ false = ground (arith, str_eq_iff k j, str_eq_iff j k) in
      rw e (lookup-insert k j v m ∙ rw other hj, insert-HasKeysOnce k v m h)
]

module _ (accepts : ℕ → WebSocketMessage → Bool) (c d : ℕ) (id : Bytes) where
  -- What the loop over the statuses makes the last one: nothing new, or the one that the device has.
  pub last_status-status_frames :
      (m : GoMap DeviceStatus) (found : Option (GoMap Value))
      → HasKeysOnce m
      → (last_status c id (written accepts (status_frames d m)) found ≡ found)
        ⊎ ((v : DeviceStatus) × (lookup id m ≡ some v)
            × (last_status c id (written accepts (status_frames d m)) found ≡ some v.status))
  unfolding written status_frames lookup
  last_status-status_frames [] found h = inl refl
  last_status-status_frames ((k, v) ∷ m) found (new, h) =
      elim (Bool-cases (accepts d (status_update k v.status))) [
        | inr e ↦ rw e (later (Bool-cases (str_eq k id)) (last_status-status_frames m found h))
        | inl e ↦ rw e (
            found_here (Bool-cases (d == c && str_eq k id))
              (later (Bool-cases (str_eq k id)) (last_status-status_frames m _ h)))
      ]
    where
      rest : Option (GoMap Value) → Option (GoMap Value)
      rest f = last_status c id (written accepts (status_frames d m)) f

      later :
          {f : Option (GoMap Value)}
          → (str_eq k id ≡ true) ⊎ (str_eq k id ≡ false)
          → (rest f ≡ f) ⊎ ((w : DeviceStatus) × (lookup id m ≡ some w) × (rest f ≡ some w.status))
          → (rest f ≡ f)
            ⊎ ((w : DeviceStatus) × ((if str_eq k id then some v else lookup id m) ≡ some w)
                × (rest f ≡ some w.status))
      later b (inl r) = inl r
      later (inr b) (inr (w, known, r)) = inr (w, rw b known, r)
      later (inl b) (inr (w, known, r)) =
          absurd (cc (ap (λ x. lookup x m) (eq_of_str_eq k id b), new, known))

      found_here :
          (((d == c) && str_eq k id) ≡ true) ⊎ (((d == c) && str_eq k id) ≡ false)
          → (rest (if d == c && str_eq k id then some v.status else found)
              ≡ (if d == c && str_eq k id then some v.status else found))
            ⊎ ((w : DeviceStatus) × ((if str_eq k id then some v else lookup id m) ≡ some w)
                × (rest (if d == c && str_eq k id then some v.status else found) ≡ some w.status))
          → (rest (if d == c && str_eq k id then some v.status else found) ≡ found)
            ⊎ ((w : DeviceStatus) × ((if str_eq k id then some v else lookup id m) ≡ some w)
                × (rest (if d == c && str_eq k id then some v.status else found) ≡ some w.status))
      found_here b (inr r) = inr r
      found_here (inr b) (inl r) = inl (r ∙ rw b refl)
      found_here (inl b) (inl r) =
          let same : str_eq k id ≡ true = ground (arith, b) in inr (v, rw same refl, r ∙ rw b refl)

-- If the writes of a device's status succeed, the loop makes its status the last one.
pub last_status-greeted :
    (accepts : ℕ → WebSocketMessage → Bool) (c : ℕ) (id : Bytes) (m : GoMap DeviceStatus)
    (found : Option (GoMap Value)) (v : DeviceStatus)
    → HasKeysOnce m
    → lookup id m ≡ some v
    → accepts c (status_update id v.status) ≡ true
    → last_status c id (written accepts (status_frames c m)) found ≡ some v.status
unfolding written status_frames lookup
last_status-greeted accepts c id [] found v h known takes = absurd (cc known)
last_status-greeted accepts c id ((k, w) ∷ m) found v (new, h) known takes =
    elim (Bool-cases (str_eq k id)) [
      | inr b ↦
          let rest = λ (f : Option (GoMap Value)).
            last_status-greeted accepts c id m f v h (rw b at known) takes in
          elim (Bool-cases (accepts c (status_update k w.status))) [
            | inl e ↦ rw e (rest _)
            | inr e ↦ rw e (rest _)
          ]
      | inl b ↦
          let same_key : k ≡ id = eq_of_str_eq k id b in
          let same : w ≡ v = eq_of_some (rw b at known) in
          let taken : accepts c (status_update k w.status) ≡ true =
            ap (λ x. accepts c (status_update x w.status)) same_key
            ∙ ap (λ (x : DeviceStatus). accepts c (status_update id x.status)) same
            ∙ takes in
          let last : (if c == c && str_eq k id then some w.status else found) ≡ some v.status =
            rw b (ground arith) ∙ ap (λ (x : DeviceStatus). some x.status) same in
          rw taken (elim (last_status-status_frames accepts c c id m _ h) [
            | inl r ↦ r ∙ last
            | inr (u, there, r) ↦ absurd (cc (ap (λ x. lookup x m) same_key, new, there))
          ])
    ]

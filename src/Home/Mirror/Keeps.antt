-- ===== src/Home/Mirror/Keeps.antt =====
-- Every handler keeps the web pages as they should be.
use mqtt_home_automation.Base.{
  ℕ, ◌≡◌, ◌⊎◌, refl, ap, sym, subst, ◌∙◌, Bool, true, false, ◌&&◌, [], none, some, arith,
  if◌then◌else◌, Bool-cases, eq_of_some, inl, inr,
}
use mqtt_home_automation.Text.{Bytes, str_eq}
use mqtt_home_automation.Text.Equality.{str_eq_refl}
use mqtt_home_automation.Maps.{GoMap, lookup, insert}
use mqtt_home_automation.Maps.Laws.{lookup-insert}
use mqtt_home_automation.Home.State.{
  App, DeviceStatus, LogEntry, Value, WebSocketMessage, status_update, mqtt_log,
}
use mqtt_home_automation.Home.Broadcast.{broadcast_update, broadcast_mqtt_log}
use mqtt_home_automation.Home.Broadcast.Delivery.{
  IsDistinct, keep, none_kept, clients-send_to_all, frames-send_to_all, send_to_all-SameBesides,
}
use mqtt_home_automation.Home.Log.{add_mqtt_log_entry}
use mqtt_home_automation.Home.Socket.{is_client}
use mqtt_home_automation.Home.Spec.Members.{is_client-keep}
use mqtt_home_automation.Home.Mirror.{last_status, IsMirrored}
use mqtt_home_automation.Home.Mirror.Frames.{
  HasKeysOnce, insert-HasKeysOnce, last_status-append, last_status-to_each, last_status-to_each_log,
}

-- The invariant: what is shown, and that the map of statuses is one.
pub record Mirrors (a : App) : Type 0 where
  pub mirrored : IsMirrored a
  pub once : HasKeysOnce a.device_status

pub and_left : (b c : Bool) → (b && c) ≡ true → b ≡ true
and_left b c h = ground arith

log_broadcast-Mirrors :
    (accepts : ℕ → WebSocketMessage → Bool) (e : LogEntry) (a : App)
    → IsDistinct a.ws_clients
    → Mirrors a
    → Mirrors (broadcast_mqtt_log accepts e a)
unfolding broadcast_mqtt_log
log_broadcast-Mirrors accepts e a distinct h =
    let m = mqtt_log e in
    let p : ℕ → Bool = λ c. accepts c m in
    let same = send_to_all-SameBesides accepts m a.ws_clients a in
    let clients =
      clients-send_to_all accepts m [] a.ws_clients a refl (none_kept a.ws_clients) distinct in
    let frames = frames-send_to_all accepts m a.ws_clients a in
    record {
      once = subst HasKeysOnce (sym same.device_status) h.once;
      mirrored = record {
        shown = λ c id s is_there was.
            let left =
              sym (is_client-keep c p a.ws_clients) ∙ ap (is_client c) (sym clients) ∙ is_there in
            let before =
              ap (λ fs. last_status c id fs none) frames
              ∙ last_status-append c id a.frames _ none
              ∙ last_status-to_each_log c id e (keep p a.ws_clients) _ in
            let (d, known, has) = h.mirrored.shown c id s (and_left _ _ left) (sym before ∙ was) in
            (d, ap (lookup id) same.device_status ∙ known, has);
      };
    }

pub status_broadcast-Mirrors :
    (accepts : ℕ → WebSocketMessage → Bool) (k : Bytes) (v : DeviceStatus) (a : App)
    → IsDistinct a.ws_clients
    → Mirrors a
    → Mirrors (
        broadcast_update accepts k v.status
          (record a { device_status = insert k v a.device_status }))
unfolding broadcast_update
status_broadcast-Mirrors accepts k v a distinct h =
    let m = status_update k v.status in
    let p : ℕ → Bool = λ c. accepts c m in
    let put = record a { device_status = insert k v a.device_status } in
    let same = send_to_all-SameBesides accepts m a.ws_clients put in
    let clients =
      clients-send_to_all accepts m [] a.ws_clients put refl (none_kept a.ws_clients) distinct in
    let frames = frames-send_to_all accepts m a.ws_clients put in
    record {
      once =
          subst HasKeysOnce (sym same.device_status)
            (insert-HasKeysOnce k v a.device_status h.once);
      mirrored = record {
        shown = λ c id s is_there was.
            let kept = ap (is_client c) (sym clients) ∙ is_there in
            let left = sym (is_client-keep c p a.ws_clients) ∙ kept in
            let after =
              ap (λ fs. last_status c id fs none) frames
              ∙ last_status-append c id a.frames _ none
              ∙ last_status-to_each c id k v.status (keep p a.ws_clients) _
              ∙ ap (λ b. if b && str_eq k id then some v.status else last_status c id a.frames none)
                  kept in
            let now = ap (lookup id) same.device_status ∙ lookup-insert k id v a.device_status in
            let (d, known, has) =
              stored c id s (and_left _ _ left) (sym after ∙ was) (Bool-cases (str_eq k id)) in
            (d, now ∙ known, has);
      };
    }
  where
    stored :
        (c : ℕ) (id : Bytes) (s : GoMap Value)
        → is_client c a.ws_clients ≡ true
        → (if str_eq k id then some v.status else last_status c id a.frames none) ≡ some s
        → (str_eq k id ≡ true) ⊎ (str_eq k id ≡ false)
        → (d : DeviceStatus) × ((if str_eq k id then some v else lookup id a.device_status)
            ≡ some d)
          × (d.status ≡ s)
    stored c id s is_there was (inl e) = rw e (v, refl, eq_of_some (rw e at was))
    stored c id s is_there was (inr e) = rw e (h.mirrored.shown c id s is_there (rw e at was))

-- All sockets that are still connected have been written the status.
pub status_broadcast-written :
    (accepts : ℕ → WebSocketMessage → Bool) (k : Bytes) (v : DeviceStatus) (a : App) (c : ℕ)
    → IsDistinct a.ws_clients
    → is_client c
        (broadcast_update accepts k v.status
          (record a { device_status = insert k v a.device_status })).ws_clients
      ≡ true
    → last_status c k
        (broadcast_update accepts k v.status
          (record a { device_status = insert k v a.device_status })).frames
        none
      ≡ some v.status
unfolding broadcast_update
status_broadcast-written accepts k v a c distinct is_there =
    let m = status_update k v.status in
    let p : ℕ → Bool = λ x. accepts x m in
    let put = record a { device_status = insert k v a.device_status } in
    let clients =
      clients-send_to_all accepts m [] a.ws_clients put refl (none_kept a.ws_clients) distinct in
    let kept = ap (is_client c) (sym clients) ∙ is_there in
    ap (λ fs. last_status c k fs none) (frames-send_to_all accepts m a.ws_clients put)
    ∙ last_status-append c k a.frames _ none
    ∙ last_status-to_each c k k v.status (keep p a.ws_clients) _
    ∙ rw (kept, str_eq_refl k) refl

pub entry-Mirrors :
    (accepts : ℕ → WebSocketMessage → Bool) (now topic payload : Bytes) (a : App)
    → IsDistinct a.ws_clients
    → Mirrors a
    → Mirrors (add_mqtt_log_entry accepts now topic payload a)
unfolding add_mqtt_log_entry
entry-Mirrors accepts now topic payload a distinct h =
    log_broadcast-Mirrors accepts _ _ distinct
      (record { mirrored = record { shown = h.mirrored.shown }; once = h.once })

-- ===== src/Home/Spec/Refines.antt =====
-- The handlers do nothing that the specification does not allow.
use mqtt_home_automation.Base.{ℕ, ◌≡◌, refl, subst, Bool, true, false, ◌&&◌, List, [], ◌∷◌}
use mqtt_home_automation.Maps.{GoMap, insert}
use mqtt_home_automation.Maps.Laws.{lookup-insert}
use mqtt_home_automation.Home.State.{App, Device, DeviceStatus}
use mqtt_home_automation.Home.Status.{new_status, init_devices, initialize_device_status}
use mqtt_home_automation.Home.Socket.{is_client, open_socket, send_statuses, send_log, close_socket}
use mqtt_home_automation.Home.Spec.Members.{is_client-add_client, is_client-remove_client}
use mqtt_home_automation.Home.Steps.{
  Step, initialize, message, status, control, connect, greet_statuses, greet_log, disconnect, Reach,
  here, next,
}
use mqtt_home_automation.Home.Steps.Invariant.{IsConsistent, Reach-IsConsistent}
use mqtt_home_automation.Home.Spec.Handlers.{
  view, add_mqtt_log_entry-Entered, Returns, on_status_message-Changes, handle_control-Changes,
}
use mqtt_home_automation.Home.Spec.{View, entered, stored, joined, left, Changes, same, more}

and_true : (b : Bool) → b ≡ (b && true)
and_true true = refl
and_true false = refl

init_devices-Changes :
    (v : View) (ds : List Device) (m : GoMap DeviceStatus) (a : App)
    → Changes v (view (record a { device_status = m }))
    → Changes v (view (record a { device_status = init_devices ds m }))
unfolding init_devices
init_devices-Changes v [] m a c = c
init_devices-Changes v (d ∷ ds) m a c = init_devices-Changes v ds (insert d.id (new_status d) m) a (
    more c (
      stored d.id (new_status d) (λ _. true)
        (record {
          limit = refl;
          log = refl;
          status = λ k. lookup-insert d.id k (new_status d) m;
          connected = λ x. and_true (is_client x a.ws_clients);
        })))

open_socket-Changes : (c : ℕ) (a : App) → Changes (view a) (view (open_socket c a))
unfolding open_socket
open_socket-Changes c a = more same (
    joined c (record {
      limit = refl;
      log = refl;
      status = λ k. refl;
      connected = λ d. is_client-add_client c d a.ws_clients;
    }))

close_socket-Changes : (c : ℕ) (a : App) → Changes (view a) (view (close_socket c a))
unfolding close_socket
close_socket-Changes c a = more same (
    left c (record {
      limit = refl;
      log = refl;
      status = λ k. refl;
      connected = λ d. is_client-remove_client c d a.ws_clients;
    }))

-- Each handler, from a consistent state, makes changes that the specification allows.
Step-Changes : {a b : App} → Step a b → IsConsistent a → Changes (view a) (view b)
unfolding initialize_device_status
Step-Changes (initialize a) h =
    init_devices-Changes (view a) a.config.devices a.device_status a same
Step-Changes (message accepts now topic payload a) h =
    more same
      (entered _ _ (add_mqtt_log_entry-Entered accepts now topic payload a h.open_clients.0))
Step-Changes {a} (status accepts decode now id topic payload b after e) h =
    subst (Returns (view a)) e (on_status_message-Changes accepts decode now id topic payload a h)
Step-Changes (control accepts publishes now method body a) h =
    handle_control-Changes accepts publishes now method body a h
Step-Changes (connect c a new unused silent) h = open_socket-Changes c a
Step-Changes (greet_statuses accepts c a) h = unfold send_statuses in same
Step-Changes (greet_log accepts c a) h = unfold send_log in same
Step-Changes (disconnect c a) h = close_socket-Changes c a

append_Changes : {u v w : View} → Changes u v → Changes v w → Changes u w
append_Changes c same = c
append_Changes c (more d e) = more (append_Changes c d) e

-- Whatever the server does from a consistent state, in whatever order, is seen as changes of the
-- specification: entries come to a bounded log, devices get statuses, and sockets join and leave,
-- or are gone after a message that they did not take; nothing else happens to the three.
pub Reach-Changes :
    {start a : App} → IsConsistent start → Reach start a → Changes (view start) (view a)
Reach-Changes h here = same
Reach-Changes {start} h (next r s) =
    append_Changes (Reach-Changes h r) (Step-Changes s (Reach-IsConsistent start h r))

-- ===== src/Home/Mirror/Runs.antt =====
-- What a page shows stays right at every step, and so from main on.
use mqtt_home_automation.Base.{
  ℕ, ◌≡◌, ap, sym, subst, ◌∙◌, Bool, true, List, [], ◌∷◌, Option, none, some,
}
use mqtt_home_automation.Text.{Bytes}
use mqtt_home_automation.Maps.{GoMap, lookup, insert}
use mqtt_home_automation.Home.State.{
  App, Config, Device, DeviceStatus, WebSocketMessage, status_update,
}
use mqtt_home_automation.Home.Status.{new_status, init_devices}
use mqtt_home_automation.Home.Socket.{is_client, send_statuses}
use mqtt_home_automation.Home.Steps.{
  Step, initialize, message, status, control, connect, greet_statuses, greet_log, disconnect,
}
use mqtt_home_automation.Home.Steps.Invariant.{IsConsistent, Reach-IsConsistent}
use mqtt_home_automation.Home.Mirror.{
  last_status, IsMirrored, is_handler, Run, begin, then_step, Run-Reach,
}
use mqtt_home_automation.Home.Mirror.Keeps.{Mirrors, entry-Mirrors}
use mqtt_home_automation.Home.Config.{LoadError}
use mqtt_home_automation.Base.Result.{Result}
use mqtt_home_automation.Home.Main.{Subscription, started, main}
use mqtt_home_automation.Home.Main.Serves.{IsEarly, IsFresh, main-IsFresh}
use mqtt_home_automation.Home.Mirror.Frames.{
  HasKeysOnce, insert-HasKeysOnce, last_status-append, last_status-greeted,
}
use mqtt_home_automation.Home.Mirror.Handlers.{
  ReturnsMirrors, on_status_message-Mirrors, handle_control-Mirrors, open_socket-Mirrors,
  send_statuses-Mirrors, send_log-Mirrors, close_socket-Mirrors,
}

Step-Mirrors :
    {a b : App} (s : Step a b) → is_handler s ≡ true → IsConsistent a → Mirrors a → Mirrors b
unfolding is_handler
Step-Mirrors (initialize a) i sound h = absurd (cc i)
Step-Mirrors (message accepts now topic payload a) i sound h =
    entry-Mirrors accepts now topic payload a sound.open_clients.0 h
Step-Mirrors (status accepts decode now id topic payload a after e) i sound h =
    subst ReturnsMirrors e (on_status_message-Mirrors accepts decode now id topic payload a sound h)
Step-Mirrors (control accepts publishes now method body a) i sound h =
    handle_control-Mirrors accepts publishes now method body a sound h
Step-Mirrors (connect c a new unused silent) i sound h = open_socket-Mirrors c a silent h
Step-Mirrors (greet_statuses accepts c a) i sound h = send_statuses-Mirrors accepts c a h
Step-Mirrors (greet_log accepts c a) i sound h = send_log-Mirrors accepts c a h
Step-Mirrors (disconnect c a) i sound h = close_socket-Mirrors c a h

pub Run-Mirrors : {start a : App} → IsConsistent start → Mirrors start → Run start a → Mirrors a
Run-Mirrors sound h begin = h
Run-Mirrors {start} sound h (then_step r s i) =
    Step-Mirrors s i (Reach-IsConsistent start sound (Run-Reach r)) (Run-Mirrors sound h r)

init_devices-HasKeysOnce :
    (ds : List Device) (m : GoMap DeviceStatus) → HasKeysOnce m → HasKeysOnce (init_devices ds m)
unfolding init_devices
init_devices-HasKeysOnce [] m h = h
init_devices-HasKeysOnce (d ∷ ds) m h =
    init_devices-HasKeysOnce ds (insert d.id (new_status d) m)
      (insert-HasKeysOnce d.id (new_status d) m h)

fresh-Mirrors : (config : Config) (start : App) → IsFresh config start → Mirrors start
unfolding is_client
fresh-Mirrors config start f = record {
  once = subst HasKeysOnce (sym f.statuses) (init_devices-HasKeysOnce config.devices [] tt);
  mirrored = record {
    shown = λ c id s is_there was. absurd (cc (ap (is_client c) f.no_clients, is_there));
  };
}

module _ (fuel : ℕ) (file : Result LoadError Config) (attempt : ℕ → Option Bytes)
    (parses wildcard : Bool) (early : App → App) {start a : App} {subs : List Subscription} where
  main-Mirrors :
      IsEarly early
      → main fuel file attempt parses wildcard early ≡ started start subs
      → Run start a
      → Mirrors a
  main-Mirrors messages h r =
      let (config, fresh, served) =
        main-IsFresh fuel file attempt parses wildcard early start subs messages h in
      Run-Mirrors fresh.consistent (fresh-Mirrors config start fresh) r

  -- If main starts the server, then whatever messages, requests and connections come, in whatever
  -- order, with other handlers between the joining of a connection and its two loops, and whatever
  -- writes fail: if a status of a device was written to a connected socket, the last one written is
  -- the status that the device has now.
  pub main-IsMirrored :
      IsEarly early
      → main fuel file attempt parses wildcard early ≡ started start subs
      → Run start a
      → IsMirrored a
  main-IsMirrored messages h r = (main-Mirrors messages h r).mirrored

  -- If main starts the server, then in every state that its handlers reach, the loop over the statuses
  -- in handleWebSocket makes the last status of a device that was written to its connection the one
  -- that the device has, if the write of this status succeeds, whatever other writes fail.
  pub main_greets :
      (accepts : ℕ → WebSocketMessage → Bool) (c : ℕ) (id : Bytes) (d : DeviceStatus)
      → IsEarly early
      → main fuel file attempt parses wildcard early ≡ started start subs
      → Run start a
      → lookup id a.device_status ≡ some d
      → accepts c (status_update id d.status) ≡ true
      → last_status c id (send_statuses accepts c a).frames none ≡ some d.status
  unfolding send_statuses
  main_greets accepts c id d messages h r known takes =
      last_status-append c id a.frames _ none
      ∙ last_status-greeted accepts c id a.device_status _ d (main-Mirrors messages h r).once known
          takes

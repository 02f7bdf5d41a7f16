-- ===== src/Examples/Starting.antt =====
-- Starts and runs of cmd/home-automation-server.
use mqtt_home_automation.Base.{
  ℕ, zero, suc, ◌<◌, ◌≤◌, ◌≡◌, ◌≢◌, ◌++◌, refl, Bool, true, false, List, [], ◌∷◌, none, some, All,
  arith,
}
use mqtt_home_automation.Base.Result.{ok}
use mqtt_home_automation.Text.{Bytes, codes, str_eq}
use mqtt_home_automation.Maps.{GoMap, lookup}
use mqtt_home_automation.Home.State.{App, DeviceStatus, Value, text}
use mqtt_home_automation.Home.Broadcast.{broadcast_mqtt_log}
use mqtt_home_automation.Home.Log.{add_mqtt_log_entry}
use mqtt_home_automation.Home.Status.{
  Handled, ran, panicked, new_status, init_devices, initialize_device_status, on_status_message,
}
use mqtt_home_automation.Home.Connect.{connected, connect_mqtt_with_retry, reconnect_mqtt}
use mqtt_home_automation.Home.Socket.{is_client, open_socket, send_statuses, send_log}
use mqtt_home_automation.Home.Steps.{
  here, next, message, status, connect, greet_statuses, greet_log,
}
use mqtt_home_automation.Home.Mirror.{last_status, IsMirrored, is_handler, Run, begin, then_step}
use mqtt_home_automation.Home.Mirror.Runs.{main-IsMirrored, main_greets}
use mqtt_home_automation.Home.Main.{
  Outside as Files, Flags, run_program, Subscription, status_topic, all_messages, started, new_app,
  main,
}
use mqtt_home_automation.Home.Main.Early.{none_yet, logged}
use mqtt_home_automation.Home.Main.Serves.{IsEarly, IsServed, main_serves}
use mqtt_home_automation.Home.Local.{is_blank, Outside, or_else, get_system_stats}
use mqtt_home_automation.Home.Local.Rows.{IsWord}
use mqtt_home_automation.Home.Local.Stats.{print_table, memory-get_system_stats}
use mqtt_home_automation.Examples.Server.{config, lamp, accepts, attempts}

-- A message comes in before the statuses are initialized, for a page that is not there yet.
abbrev early : App → App
early a = add_mqtt_log_entry accepts (codes "s") (codes "lamp/state") (codes "on") a

abbrev messages : IsEarly early
messages a = logged none_yet accepts (codes "s") (codes "lamp/state") (codes "on")

-- The server starts.
abbrev fresh : App
fresh = initialize_device_status (early (new_app config))

abbrev subscribed : List Subscription
subscribed =
    status_topic (codes "lamp/state", codes "lamp")
    ∷ status_topic (codes "lamp/state", codes "lamp")
    ∷ all_messages
    ∷ []

starts : main 3 (ok config) attempts true true early ≡ started fresh subscribed
unfolding main connect_mqtt_with_retry mqtt_home_automation.Home.State.with_retry_interval
    mqtt_home_automation.Home.State.with_log_size
    mqtt_home_automation.Home.Connect.subscribe_to_status_topics
starts = refl

-- The same start, from the files on.
abbrev files : Files
files = record {
  read_file = λ f. ok (codes "<config/>");
  unmarshal = λ text. ok config;
  join_path = λ a b. a ++ (codes "/" ++ b);
  parses = λ pattern. str_eq pattern (codes "./templates/*.html");
  attempt = attempts;
  early = early;
}

abbrev flags : Flags
flags = record { config_file = codes "c.xml"; web_dir = codes "."; log_all_mqtt = true }

starts_files : run_program 3 files flags ≡ started fresh subscribed
unfolding run_program main connect_mqtt_with_retry str_eq
    mqtt_home_automation.Home.Config.load_config mqtt_home_automation.Home.Config.or_error
    mqtt_home_automation.Home.State.with_retry_interval
    mqtt_home_automation.Home.State.with_log_size
    mqtt_home_automation.Home.Connect.subscribe_to_status_topics
starts_files = refl

abbrev later : App
later = add_mqtt_log_entry accepts (codes "t") (codes "x") (codes "on") fresh

main_serves_example :
    (fresh.device_status ≡ init_devices fresh.config.devices []) × All (IsServed later) subscribed
main_serves_example =
    main_serves 3 (ok config) attempts true true early fresh later subscribed messages starts
      (next here (message accepts (codes "t") (codes "x") (codes "on") fresh))

-- Two pages join, of which one cannot be written to and is written no status; then a status comes in
-- between the two loops of the other.
abbrev joined : App
joined = send_statuses accepts 2 (send_statuses accepts 1 (open_socket 2 (open_socket 1 fresh)))

abbrev handled : Handled → App
handled (ran a) = a
handled panicked = fresh

abbrev updated : App
updated = handled (
    on_status_message accepts (λ payload. none) (codes "u") (codes "lamp") (codes "lamp/state")
      (codes "off") joined)

updates :
    on_status_message accepts
      (λ payload. none)
      (codes "u")
      (codes "lamp")
      (codes "lamp/state")
      (codes "off")
      joined
    ≡ ran updated
unfolding on_status_message initialize_device_status lookup add_mqtt_log_entry broadcast_mqtt_log
    send_statuses open_socket mqtt_home_automation.Home.Status.handle_status_update
    mqtt_home_automation.Home.Broadcast.send_to_all mqtt_home_automation.Home.Broadcast.send_to
    mqtt_home_automation.Maps.insert mqtt_home_automation.Text.str_eq
updates = refl

greeted : Run fresh joined
unfolding is_handler initialize_device_status open_socket add_mqtt_log_entry broadcast_mqtt_log
    mqtt_home_automation.Home.Broadcast.send_to_all
greeted =
    then_step
      (then_step
        (then_step (then_step begin (connect 1 fresh tt tt tt) refl)
          (connect 2 (open_socket 1 fresh) (omega arith, tt) tt tt) refl)
        (greet_statuses accepts 1 (open_socket 2 (open_socket 1 fresh))) refl)
      (greet_statuses accepts 2 (send_statuses accepts 1 (open_socket 2 (open_socket 1 fresh))))
      refl

abbrev shown : Run fresh (send_log accepts 1 updated)
unfolding is_handler
shown =
    then_step
      (then_step greeted
        (status accepts (λ payload. none) (codes "u") (codes "lamp") (codes "lamp/state")
          (codes "off") joined updated updates)
        refl)
      (greet_log accepts 1 updated) refl

main-IsMirrored_example : IsMirrored (send_log accepts 1 updated)
main-IsMirrored_example =
    main-IsMirrored 3 (ok config) attempts true true early messages starts shown

-- A page is connected that was written the status.
lamp_now : GoMap Value
lamp_now = (codes "value", text (codes "off")) ∷ (codes "lastUpdate", text (codes "u")) ∷ []

page_one_shows :
    (is_client 1 (send_log accepts 1 updated).ws_clients ≡ true)
    × (last_status 1 (codes "lamp") (send_log accepts 1 updated).frames none ≡ some lamp_now)
unfolding send_log lamp_now is_client on_status_message initialize_device_status lookup
    add_mqtt_log_entry broadcast_mqtt_log send_statuses open_socket
    mqtt_home_automation.Home.Status.handle_status_update
    mqtt_home_automation.Home.Broadcast.send_to_all mqtt_home_automation.Home.Broadcast.send_to
    mqtt_home_automation.Maps.insert mqtt_home_automation.Text.str_eq
    mqtt_home_automation.Home.Broadcast.broadcast_update mqtt_home_automation.Home.Log.max_size
page_one_shows = (refl, refl)

abbrev blank : DeviceStatus
blank = new_status lamp

main_greets_example :
    last_status 1 (codes "lamp") (send_statuses accepts 1 fresh).frames none ≡ some blank.status
unfolding initialize_device_status lookup add_mqtt_log_entry broadcast_mqtt_log
    mqtt_home_automation.Home.Broadcast.send_to_all mqtt_home_automation.Maps.insert
    mqtt_home_automation.Text.str_eq
main_greets_example =
    main_greets 3 (ok config) attempts true true early accepts 1 (codes "lamp") blank messages
      starts begin refl refl

two_fail : (i : ℕ) → 0 ≤ i → i < 2 → attempts i ≢ none
two_fail zero a b = λ e. cc e
two_fail (suc zero) a b = λ e. cc e
two_fail (suc (suc i)) a b = absurd (omega arith)

-- The client is connected again from the fourth check on.
abbrev again : ℕ → Bool
again zero = false
again (suc zero) = false
again (suc (suc zero)) = false
again (suc (suc (suc n))) = true

not_before : (k : ℕ) → k < 3 → again k ≡ false
not_before zero b = refl
not_before (suc zero) b = refl
not_before (suc (suc zero)) b = refl
not_before (suc (suc (suc k))) b = absurd (omega arith)

-- Every program prints the same table, and a number is its digits.
abbrev printed : Bytes
printed = print_table (codes "M") (codes "M") (3, codes "7") (5, codes "2") [] (codes "")

abbrev outside : Outside Bytes
outside = record {
  output = λ program. some printed;
  parse_float = λ s. some s;
  zero_float = codes "0";
}

heading_plain : All (λ c. c ≢ b'\n') (codes "M")
heading_plain = (λ e. omega arith, tt)

abbrev word : (c : ℕ) → is_blank c ≡ false → IsWord (c ∷ [])
word c h = record { first = c; rest = []; filled = refl; plain = (h, tt) }

mem : IsWord (codes "M")
unfolding is_blank
mem = word b'M' refl

seven : IsWord (codes "7")
unfolding is_blank
seven = word b'7' refl

two : IsWord (codes "2")
unfolding is_blank
two = word b'2' refl

memory-get_system_stats_example :
    ◌≡◌ {A = Bytes × Bytes}
      ((get_system_stats outside).memory_total, (get_system_stats outside).memory_used)
      (
        or_else outside (codes "0") (some (codes "7")),
        or_else outside (codes "0") (some (codes "2")),
      )
memory-get_system_stats_example =
    memory-get_system_stats outside (codes "M") (codes "M") (3, codes "7") (5, codes "2") [] []
      heading_plain mem (seven, (two, tt)) refl

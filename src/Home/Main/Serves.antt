-- ===== src/Home/Main/Serves.antt =====
-- What the server keeps to once it has started.
use mqtt_home_automation.Base.{
  ℕ, ◌≡◌, ◌≢◌, refl, ap, sym, subst, ◌∙◌, Bool, true, false, List, [], ◌∷◌, map, Option, none,
  arith, if◌then◌else◌, All, All-append, Bool-cases, inl, inr,
}
use mqtt_home_automation.Text.{Bytes, str_eq}
use mqtt_home_automation.Maps.{GoMap, lookup, insert}
use mqtt_home_automation.Maps.Laws.{lookup-insert, lookup-insert_self}
use mqtt_home_automation.Home.State.{App, Config, Device, DeviceStatus}
use mqtt_home_automation.Home.Connect.{
  Connection, connected, given_up, trying, subscribe_to_status_topics,
}
use mqtt_home_automation.Home.Status.{new_status, init_devices, initialize_device_status}
use mqtt_home_automation.Home.Steps.{Reach}
use mqtt_home_automation.Home.Steps.Invariant.{IsConsistent, Reach-IsConsistent}
use mqtt_home_automation.Home.Spec.{
  View, Change, entered, stored, joined, left, Changes, same, more,
}
use mqtt_home_automation.Home.Spec.Handlers.{view}
use mqtt_home_automation.Home.Spec.Refines.{Reach-Changes}
use mqtt_home_automation.Home.Main.Early.{Early, Early-Reach, Early-IsQuiet}
use mqtt_home_automation.Home.Config.{LoadError}
use mqtt_home_automation.Base.Result.{Result, ok, err}
use mqtt_home_automation.Home.Main.{
  Subscription, status_topic, all_messages, started, new_app, subscriptions, after_connect, main,
}

-- No change of the specification takes a device's status away.
Change-known : {v w : View} (k : Bytes) → Change v w → v.status k ≢ none → w.status k ≢ none
Change-known k (entered e t c) n h = n (sym (c.status k) ∙ h)
Change-known k (stored id d t c) n h = elim (Bool-cases (str_eq id k)) [
  | inl e ↦ cc (rw e at (c.status k), h)
  | inr e ↦ n (sym (rw e at (c.status k)) ∙ h)
]
Change-known k (joined x c) n h = n (sym (c.status k) ∙ h)
Change-known k (left x c) n h = n (sym (c.status k) ∙ h)

Changes-known : {v w : View} (k : Bytes) → Changes v w → v.status k ≢ none → w.status k ≢ none
Changes-known k same n = n
Changes-known k (more c d) n = Change-known k d (Changes-known k c n)

lookup-insert-ne-none :
    (k j : Bytes) (d : DeviceStatus) (m : GoMap DeviceStatus)
    → lookup k m ≢ none
    → lookup k (insert j d m) ≢ none
lookup-insert-ne-none k j d m n h = elim (Bool-cases (str_eq j k)) [
  | inl e ↦ cc (rw (lookup-insert, e) at h)
  | inr e ↦ n (rw (lookup-insert, e) at h)
]

init_devices-known :
    (k : Bytes) (ds : List Device) (m : GoMap DeviceStatus)
    → lookup k m ≢ none
    → lookup k (init_devices ds m) ≢ none
unfolding init_devices
init_devices-known k [] m n = n
init_devices-known k (d ∷ ds) m n =
    init_devices-known k ds (insert d.id (new_status d) m)
      (lookup-insert-ne-none k d.id (new_status d) m n)

init_devices-All :
    (ds : List Device) (m : GoMap DeviceStatus)
    → All (λ (d : Device). lookup d.id (init_devices ds m) ≢ none) ds
unfolding init_devices
init_devices-All [] m = tt
init_devices-All (d ∷ ds) m = (
  init_devices-known d.id ds (insert d.id (new_status d) m)
      (λ h. cc (lookup-insert_self d.id (new_status d) m, h)),
  init_devices-All ds (insert d.id (new_status d) m),
)

-- A subscription whose messages are not dropped for a device that is not there.
abbrev pub IsServed : App → Subscription → Type 0
IsServed a (status_topic (topic, id)) = lookup id a.device_status ≢ none
IsServed a all_messages = Unit

topics-IsServed :
    (a : App) (ds : List Device)
    → All (λ (d : Device). lookup d.id a.device_status ≢ none) ds
    → All (IsServed a) (map status_topic (subscribe_to_status_topics ds))
unfolding subscribe_to_status_topics
topics-IsServed a [] h = tt
topics-IsServed a (d ∷ ds) (hd, h) = elim (Bool-cases (str_eq d.status_topic [])) [
  | inl e ↦ rw e (topics-IsServed a ds h)
  | inr e ↦ rw e (hd, topics-IsServed a ds h)
]

subscriptions-IsServed :
    (a : App) (config : Config) (wildcard : Bool)
    → All (λ (d : Device). lookup d.id a.device_status ≢ none) config.devices
    → All (IsServed a) (subscriptions config wildcard)
unfolding subscriptions
subscriptions-IsServed a config wildcard h =
    let topics = topics-IsServed a config.devices h in
    All-append (IsServed a) _ _ topics (All-append (IsServed a) _ _ topics (last wildcard))
  where
    last : (wildcard : Bool) → All (IsServed a) (if wildcard then all_messages ∷ [] else [])
    last true = (tt, tt)
    last false = tt

Changes-IsServed :
    (start a : App) (subs : List Subscription)
    → Changes (view start) (view a)
    → All (IsServed start) subs
    → All (IsServed a) subs
Changes-IsServed start a [] c h = tt
Changes-IsServed start a (status_topic (topic, id) ∷ subs) c (hs, h) =
    (Changes-known id c hs, Changes-IsServed start a subs c h)
Changes-IsServed start a (all_messages ∷ subs) c (hs, h) = (tt, Changes-IsServed start a subs c h)

-- What the first messages do.
abbrev pub IsEarly : (App → App) → Type 0
IsEarly early = (app : App) → Early app (early app)

-- The state in which the server starts: that of the file, with the fresh statuses of its devices.
pub record IsFresh (config : Config) (start : App) : Type 0 where
  pub same_config : start.config ≡ config
  pub statuses : start.device_status ≡ init_devices config.devices []
  pub no_clients : start.ws_clients ≡ []
  pub consistent : IsConsistent start

early-IsFresh :
    (config : Config) (early : App → App)
    → IsEarly early
    → IsFresh config (initialize_device_status (early (new_app config)))
unfolding initialize_device_status
early-IsFresh config early e =
    let fresh = new_app config in
    let consistent : IsConsistent fresh = record {
      bounded = omega arith;
      open_clients = (tt, tt);
    } in
    let later = Reach-IsConsistent fresh consistent (Early-Reach (e fresh)) in
    let quiet =
      Early-IsQuiet (record { no_clients = refl; no_status = refl; same_config = refl })
        (e fresh) in
    record {
      same_config = quiet.same_config;
      statuses =
          ap (λ (c : Config). init_devices c.devices (early fresh).device_status) quiet.same_config
          ∙ ap (init_devices config.devices) quiet.no_status;
      no_clients = quiet.no_clients;
      consistent = record { bounded = later.bounded; open_clients = later.open_clients };
    }

fresh-IsServed :
    (config : Config) (wildcard : Bool) (start : App)
    → IsFresh config start
    → All (IsServed start) (subscriptions config wildcard)
fresh-IsServed config wildcard start f = subscriptions-IsServed start config wildcard (
    subst (λ (m : GoMap DeviceStatus). All (λ (d : Device). lookup d.id m ≢ none) config.devices)
      (sym f.statuses) (init_devices-All config.devices []))

after_connect_serves :
    (config : Config) (parses wildcard : Bool) (early : App → App) (conn : Connection) (start : App)
    (subs : List Subscription)
    → IsEarly early
    → after_connect config parses wildcard early conn ≡ started start subs
    → IsFresh config start × All (IsServed start) subs
unfolding after_connect
after_connect_serves config false wildcard early (connected n) start subs messages h = absurd (cc h)
after_connect_serves config true wildcard early (connected n) start subs messages h =
    let app : initialize_device_status (early (new_app config)) ≡ start = cc h in
    let topics : subscriptions config wildcard ≡ subs = cc h in
    let fresh = early-IsFresh config early messages in
    rw (← app, ← topics) (fresh, fresh-IsServed config wildcard _ fresh)
after_connect_serves config parses wildcard early (given_up n e) start subs messages h =
    absurd (cc h)
after_connect_serves config parses wildcard early trying start subs messages h = absurd (cc h)

module _ (fuel : ℕ) (file : Result LoadError Config) (attempt : ℕ → Option Bytes)
    (parses wildcard : Bool) (early : App → App) where
  pub main-IsFresh :
      (start : App) (subs : List Subscription)
      → IsEarly early
      → main fuel file attempt parses wildcard early ≡ started start subs
      → (config : Config) × IsFresh config start × All (IsServed start) subs
  unfolding main
  main-IsFresh start subs messages h = by_file file h
    where
      by_file :
          (f : Result LoadError Config)
          → main fuel f attempt parses wildcard early ≡ started start subs
          → (config : Config) × IsFresh config start × All (IsServed start) subs
      by_file (err e) s = absurd (cc s)
      by_file (ok c) s =
          let (fresh, served) =
            after_connect_serves _ parses wildcard early _ start subs messages s in
          (_, fresh, served)

  -- If main starts the server, then whatever messages came between the connect handler's
  -- subscriptions and initializeDeviceStatus, the device statuses that it starts with are the fresh
  -- ones of its configuration: what the messages said is dropped. And from there on, whatever
  -- messages, requests and connections come, in whatever order, no message of a status topic
  -- subscribed to is for a device that has no status.
  pub main_serves :
      (start a : App) (subs : List Subscription)
      → IsEarly early
      → main fuel file attempt parses wildcard early ≡ started start subs
      → Reach start a
      → (start.device_status ≡ init_devices start.config.devices []) × All (IsServed a) subs
  main_serves start a subs messages h r =
      let (config, fresh, served) = main-IsFresh start subs messages h in
      (
        fresh.statuses ∙ ap (λ (c : Config). init_devices c.devices []) (sym fresh.same_config),
        Changes-IsServed start a subs (Reach-Changes fresh.consistent r) served,
      )

-- ===== src/Remote.antt =====
-- A button of a web page of cmd/home-automation-server that names a topic of cmd/mqtt_listener: the
-- request goes to the broker, the listener runs the command of the topic, and its answer comes back
-- on the topic of a device's status. The broker and the encoding of the answer are between the two.
use mqtt_home_automation.Base.{
  ℕ, ◌≡◌, ◌≢◌, refl, ap, sym, subst, ◌∙◌, Bool, true, false, List, [], ◌∷◌, ◌++◌, Option, none,
  some, if◌then◌else◌, All, Any, inl, inr, Option-cases, eq_of_some,
}
use mqtt_home_automation.Base.Result.{Result, ok}
use mqtt_home_automation.Text.{Bytes, codes, str_eq, fields as words}
use mqtt_home_automation.Maps.{GoMap, lookup}
use mqtt_home_automation.Home.State.{
  Config as HomeConfig, App, DeviceStatus, Value, text, WebSocketMessage,
}
use mqtt_home_automation.Home.Config.{LoadError}
use mqtt_home_automation.Home.Status.{Json, object, ran, on_status_message}
use mqtt_home_automation.Home.Socket.{is_client}
use mqtt_home_automation.Home.Mirror.{last_status, is_handler, Run, begin, then_step, Run-Reach}
use mqtt_home_automation.Home.Mirror.Handlers.{handle_status_update-written}
use mqtt_home_automation.Home.Mirror.Runs.{main-IsMirrored}
use mqtt_home_automation.Home.Steps.Invariant.{Reach-IsConsistent}
use mqtt_home_automation.Home.Steps.{message, control, status, next}
use mqtt_home_automation.Home.Log.{add_mqtt_log_entry}
use mqtt_home_automation.Home.Status.Updates.{handle_status_update_stores}
use mqtt_home_automation.Text.Equality.{str_eq_refl}
use mqtt_home_automation.Home.Main.Serves.{IsEarly, IsServed, main-IsFresh, main_serves}
use mqtt_home_automation.Home.Main.{Subscription, status_topic, started, main}
use mqtt_home_automation.Listener.Handle.{
  Exit, Response, words_run, execute_command, handle_message,
}
use mqtt_home_automation.Listener.Handle.Below.{below_base_listed}
use mqtt_home_automation.Home.Control.{Request, handle_control}
use mqtt_home_automation.Home.Control.Replies.{handle_control_answers}
use mqtt_home_automation.Listener.Config.{Config}
use mqtt_home_automation.Listener.Main.Topics.{main-topics}
use mqtt_home_automation.Listener.Broker.{is_delivered}
use mqtt_home_automation.Listener.Broker.Feedback.{MatchesLevel, is_delivered-level}
use mqtt_home_automation.Listener.Main.{Outside, Listening, main as listener_main}

-- The device has the values of an answer and the time of its message, and every connected socket was
-- last written just these.
pub record Shows (fields : GoMap Value) (now id : Bytes) (app : App) : Type 0 where
  pub device : DeviceStatus
  pub known : lookup id app.device_status ≡ some device
  pub values :
      (k : Bytes)
      → lookup k device.status
        ≡ (if str_eq (codes "lastUpdate") k then some (text now) else lookup k fields)
  pub written :
      (c : ℕ)
      → is_client c app.ws_clients ≡ true
      → last_status c id app.frames none ≡ some device.status

All-at {ℓ} :
    {A : Type 0} (P : A → Type ℓ) (xs : List A) {x : A} → All P xs → Any (λ y. y ≡ x) xs → P x
All-at P [] hs i = absurd i
All-at P (y ∷ ys) (h, hs) (inl e) = subst P e h
All-at P (y ∷ ys) (h, hs) (inr i) = All-at P ys hs i

-- What the server does in the state that a run of it leaves is a run, too.
Run-append : {a b c : App} → Run a b → Run b c → Run a c
Run-append r begin = r
Run-append r (then_step s step h) = then_step (Run-append r s) step h

-- An answer that comes on a status topic subscribed to is stored under its device, and shown.
status-Shows :
    (fuel : ℕ) (file : Result LoadError HomeConfig) (attempt : ℕ → Option Bytes)
    (parses wildcard : Bool) (early : App → App) {start a : App} {subs : List Subscription}
    → IsEarly early
    → main fuel file attempt parses wildcard early ≡ started start subs
    → Run start a
    → (accepts : ℕ → WebSocketMessage → Bool) (decode : Bytes → Option Json)
      (now id topic payload : Bytes) (fields : GoMap Value)
    → Any (λ s. s ≡ status_topic (topic, id)) subs
    → decode payload ≡ some (object fields)
    → (after : App) × (on_status_message accepts decode now id topic payload a ≡ ran after)
      × Run start after
      × Shows fields now id after
unfolding on_status_message
status-Shows fuel file attempt parses wildcard early {start} {a} {subs} messages starts run accepts
      decode now id topic payload fields subscribed decodes =
    let logged = add_mqtt_log_entry accepts now topic payload a in
    let (fresh, served) =
      main_serves fuel file attempt parses wildcard early start logged subs messages starts
        (next (Run-Reach run) (message accepts now topic payload a)) in
    elim (Option-cases (lookup id logged.device_status)) [
      | inl unknown ↦ absurd (All-at (IsServed logged) subs served subscribed unknown)
      | inr (d, known) ↦
          let (after, stores, updated) =
            handle_status_update_stores accepts decode now id payload d logged known
              (λ e. cc (e, decodes)) in
          let run_after =
            then_step run (status accepts decode now id topic payload a after stores)
              (unfold is_handler in refl) in
          let (_, started_well, _) =
            main-IsFresh fuel file attempt parses wildcard early start subs messages starts in
          let sound =
            Reach-IsConsistent start started_well.consistent
              (next (Run-Reach run) (message accepts now topic payload a)) in
          let written =
            handle_status_update-written accepts decode now id payload d logged sound.open_clients.0
              known stores in
          let found : lookup id after.device_status ≡ some (record d { status = updated.status }) =
            updated.devices id ∙ rw (str_eq_refl id) refl in
          (
            after,
            stores,
            run_after,
            record {
              device = record d { status = updated.status };
              known = found;
              values = λ k. updated.values k ∙ rw decodes refl;
              written = λ c is_there.
                  let (s, last) = written c is_there in
                  let (e, there, has) =
                    (main-IsMirrored fuel file attempt parses wildcard early messages starts
                        run_after).shown
                      c id s is_there last in
                  let same = eq_of_some (sym found ∙ there) in
                  last ∙ ap some (sym has) ∙ ap (λ (x : DeviceStatus). some x.status) (sym same);
            },
          )
    ]

str_eq-below : (base name : Bytes) → str_eq (base ++ (codes "/" ++ name)) [] ≡ false
unfolding str_eq
str_eq-below [] name = refl
str_eq-below (c ∷ base) name = refl

-- With both programs started by their main, a listener whose file lists a command under a name, a
-- device whose status topic is the answer's topic for that name, MQTT's wildcard for one level, a
-- name that is one level, and an answer whose encoding is
-- decoded to an object: a control request whose topic is the listener's topic for the name, and
-- whose message the broker takes, is answered with 200 and published; the listener is subscribed to its topic, runs just the
-- words of the command, and publishes its output and exit status under the status topic; and when
-- this arrives at the server, whatever its handlers have done since, the device has the values of the
-- answer, and so does the last status that was written to every connected socket.
pub remote_command-Shows :
    (fuel : ℕ) (file : Result LoadError HomeConfig) (attempt : ℕ → Option Bytes)
    (parses wildcard : Bool) (early : App → App) {start a b : App} {subs : List Subscription}
    (o : Outside) (exec : List Bytes → Bytes × Exit) (flags : Config) {l : Listening}
    (name cmd id : Bytes) (req : Request) (accepts accepts_later : ℕ → WebSocketMessage → Bool)
    (publishes : Bytes → Bytes → Bool) (matches : Bytes → Bytes → Bool) (now heard later : Bytes)
    (encode : Response → Bytes) (decode : Bytes → Option Json) (fields : Response → GoMap Value)
    → IsEarly early
    → main fuel file attempt parses wildcard early ≡ started start subs
    → listener_main o flags ≡ ok l
    → MatchesLevel matches
    → str_eq l.config.config_file [] ≡ false
    → All (λ c. c ≢ b'/') name
    → lookup name l.config.commands ≡ some cmd
    → Any (λ s. s ≡ status_topic (req.topic ++ codes "/status", id)) subs
    → decode (encode (execute_command exec cmd).1)
      ≡ some (object (fields (execute_command exec cmd).1))
    → req.topic ≡ l.config.topic ++ (codes "/" ++ name)
    → publishes req.topic req.payload ≡ true
    → Run start a
    → Run (handle_control accepts publishes now (codes "POST") (some req) a).1 b
    → ((handle_control accepts publishes now (codes "POST") (some req) a).0 ≡ 200)
      × ((handle_control accepts publishes now (codes "POST") (some req) a).1.published
          ≡ a.published ++ (req.topic, req.payload) ∷ [])
      × (is_delivered matches l.topics req.topic ≡ true)
      × (handle_message exec l.config heard req.topic ≡ record {
        executed = words_run (words cmd);
        reply = some (req.topic ++ codes "/status", (execute_command exec cmd).1);
      })
      × ((after : App) × (on_status_message accepts_later decode later id
              (req.topic ++ codes "/status")
              (encode (execute_command exec cmd).1)
              b
            ≡ ran after)
          × Shows (fields (execute_command exec cmd).1) later id after)
unfolding execute_command
remote_command-Shows fuel file attempt parses wildcard early {a = a} o exec flags {l = l} name cmd
      id req accepts accepts_later publishes matches now heard later encode decode fields messages
      starts listens level xml is_level listed subscribed decodes topic takes run run_later =
    let named : str_eq req.topic [] ≡ false = rw topic (str_eq-below l.config.topic name) in
    let answered = handle_control_answers accepts publishes now req a in
    let posted =
      then_step run (control accepts publishes now (codes "POST") (some req) a)
        (unfold is_handler in refl) in
    let (after, stores, run_after, shows) =
      status-Shows fuel file attempt parses wildcard early messages starts
        (Run-append posted run_later) accepts_later decode later id _ _ _ subscribed decodes in
    (
      answered.code ∙ rw (named, takes) refl,
      answered.published ∙ rw (named, takes) refl,
      rw (main-topics o flags listens, topic)
          (is_delivered-level matches l.config name level xml is_level),
      ap (handle_message exec l.config heard) topic
          ∙ below_base_listed exec l.config xml heard name listed
          ∙ rw topic refl,
      (after, stores, shows),
    )

-- ===== src/Home/Control/Replies.antt =====
-- What a control request is answered with, and what it leaves.
use mqtt_home_automation.Base.{
  ℕ, ◌≡◌, refl, ◌∙◌, Bool, not, ◌&&◌, [], ◌∷◌, ◌++◌, some, take, if◌then◌else◌, Bool-cases, inl,
  inr,
}
use mqtt_home_automation.Text.{Bytes, codes, str_eq}
use mqtt_home_automation.Home.State.{App, WebSocketMessage}
use mqtt_home_automation.Home.Log.{max_size}
use mqtt_home_automation.Home.Log.History.{log-add_mqtt_log_entry, SameBesides-add_mqtt_log_entry}
use mqtt_home_automation.Home.Control.{Request, start_local, publish_control, handle_control}

module _ (accepts : ℕ → WebSocketMessage → Bool) (publishes : Bytes → Bytes → Bool) where
  -- A message of the request reaches the broker.
  abbrev is_sent : Request → Bool
  is_sent req = not (str_eq req.topic []) && publishes req.topic req.payload

  -- The answer to a request that was read.
  pub record Answered (now : Bytes) (req : Request) (app : App) (reply : ℕ × App) : Type 0 where
    pub code : reply.0 ≡ (
        if str_eq req.topic [] then 200 else if publishes req.topic req.payload then 200 else 500)
    pub commands : reply.1.commands ≡ (
        if str_eq req.local_command []
        then app.commands
        else app.commands ++ req.local_command ∷ [])
    pub published :
        reply.1.published
        ≡ (if is_sent req then app.published ++ (req.topic, req.payload) ∷ [] else app.published)
    pub log : reply.1.log ≡ (
        if is_sent req
        then take (max_size app.config) (
            record { timestamp = now; topic = req.topic ++ codes " (OUT)"; payload = req.payload }
            ∷ app.log)
        else app.log)

  start_local_lem :
      (req : Request) (app : App)
      → ((start_local req app).commands ≡ (
          if str_eq req.local_command []
          then app.commands
          else app.commands ++ req.local_command ∷ []))
        × ((start_local req app).published ≡ app.published)
        × ((start_local req app).log ≡ app.log)
        × ((start_local req app).config ≡ app.config)
  unfolding start_local
  start_local_lem req app = elim (Bool-cases (str_eq req.local_command [])) [
    | inl e ↦ rw e (refl, refl, refl, refl)
    | inr e ↦ rw e (refl, refl, refl, refl)
  ]

  publish_control-Answered :
      (now : Bytes) (req : Request) (app : App)
      → Answered now req app (publish_control accepts publishes now req (start_local req app))
  unfolding publish_control
  publish_control-Answered now req app =
      let (commands, published, log, config) = start_local_lem req app in
      elim (Bool-cases (str_eq req.topic [])) [
        | inl quiet ↦ rw quiet (record {
          code = rw quiet;
          commands = commands;
          published = rw quiet published;
          log = rw quiet log;
        })
        | inr topic ↦ elim (Bool-cases (publishes req.topic req.payload)) [
          | inl sent ↦
              let started = record (start_local req app) {
                published = (start_local req app).published ++ (req.topic, req.payload) ∷ [];
              } in
              let same =
                SameBesides-add_mqtt_log_entry accepts now (req.topic ++ codes " (OUT)") req.payload
                  started in
              rw (topic, sent)
                (record {
                  code = rw (topic, sent);
                  commands = same.0 ∙ commands;
                  published = rw (topic, sent) (same.1 ∙ rw published);
                  log =
                      rw (topic, sent)
                        (log-add_mqtt_log_entry accepts now (req.topic ++ codes " (OUT)")
                            req.payload started
                          ∙ rw (log, config));
                })
          | inr lost ↦
              rw (topic, lost)
                (record {
                  code = rw (topic, lost);
                  commands = commands;
                  published = rw (topic, lost) published;
                  log = rw (topic, lost) log;
                })
        ]
      ]

  -- A POST whose body is read is answered by 500 exactly if it names a topic and the broker does not
  -- take the message, else by 200. Its local command is started in either case. The message is
  -- published, and the log gets it, marked as outgoing, exactly if the broker takes it.
  pub handle_control_answers :
      (now : Bytes) (req : Request) (app : App)
      → Answered now req app (handle_control accepts publishes now (codes "POST") (some req) app)
  unfolding handle_control str_eq
  handle_control_answers now req app = publish_control-Answered now req app

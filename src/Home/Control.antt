-- ===== src/Home/Control.antt =====
-- handleControl of cmd/home-automation-server/web.go. Decoding the request's JSON is a parameter, and
-- so is whether the broker takes what is published.
pub mod Replies
use mqtt_home_automation.Base.{
  ℕ, Bool, true, false, List, [], ◌∷◌, ◌++◌, Option, none, some, if◌then◌else◌,
}
use mqtt_home_automation.Text.{Bytes, codes, str_eq}
use mqtt_home_automation.Home.State.{App, WebSocketMessage}
use mqtt_home_automation.Home.Log.{add_mqtt_log_entry}

pub record Request : Type 0 where
  pub device : Bytes
  pub topic : Bytes
  pub payload : Bytes
  pub local_command : Bytes

-- go app.executeLocalCommand: the command is started, whatever becomes of it.
unfoldable pub start_local : Request → App → App
unfolding str_eq
start_local req app =
    if str_eq req.local_command []
    then app
    else record app { commands = app.commands ++ req.local_command ∷ [] }

module _ (accepts : ℕ → WebSocketMessage → Bool) (publishes : Bytes → Bytes → Bool) where
  unfoldable pub publish_control : Bytes → Request → App → ℕ × App
  publish_control now req app =
      if str_eq req.topic []
      then (200, app)
      else if publishes req.topic req.payload
      then (
        200,
        add_mqtt_log_entry accepts now (req.topic ++ codes " (OUT)") req.payload
            (record app { published = app.published ++ (req.topic, req.payload) ∷ [] }),
      )
      else (500, app)

  unfoldable pub decoded_control : Bytes → Option Request → App → ℕ × App
  unfolding publish_control start_local
  decoded_control now none app = (400, app)
  decoded_control now (some req) app = publish_control now req (start_local req app)

  -- The status code of the reply, and the state after it.
  unfoldable pub handle_control : Bytes → Bytes → Option Request → App → ℕ × App
  unfolding decoded_control
  handle_control now method body app =
      if str_eq method (codes "POST") then decoded_control now body app else (405, app)

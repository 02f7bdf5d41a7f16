-- ===== src/Listener/Handle.antt =====
-- executeCommand, getAvailableCommands, handleMessage and the subscriptions of
-- cmd/mqtt_listener/main.go. Running a program (os/exec) is a parameter, `exec`.
pub mod Safety
pub mod Below
use mqtt_home_automation.Base.{
  ℕ, ◌≡◌, refl, Bool, true, false, List, [], ◌∷◌, ◌++◌, Option, none, some, if◌then◌else◌,
}
use mqtt_home_automation.Base.Int.{ℤ, pos}
use mqtt_home_automation.Text.{Bytes, codes, str_eq, has_prefix, trim_prefix, fields, join}
use mqtt_home_automation.Maps.{GoMap, lookup, keys}
use mqtt_home_automation.Listener.Config.{Config}

-- How a program ends: well, with an exit code, or it is not started.
pub data Exit : Type 0 where
  success not_started : Exit
  exit_error : ℤ → Exit

pub data Response : Type 0 where
  status_response : Bytes → List Bytes → Bytes → Response
  command_result : Bytes → ℤ → Response

-- What a message leads to: the programs run, as their words, and what is published where.
pub record Reaction : Type 0 where
  pub executed : List (List Bytes)
  pub reply : Option (Bytes × Response)

status_of : Exit → ℤ
status_of success = pos 0
status_of (exit_error code) = code
status_of not_started = pos 1

-- The words of a command, or none.
pub words_run : List Bytes → List (List Bytes)
words_run [] = []
words_run (w ∷ ws) = (w ∷ ws) ∷ []

abbrev pub not_found_text : Bytes → GoMap Bytes → Bytes
not_found_text name commands =
    codes "Error: Command '"
    ++ (name ++ (codes "' not found. Available commands: " ++ join (keys commands) (codes ", ")))

module _ (exec : List Bytes → Bytes × Exit) where
  result_of : List Bytes → Response
  unfolding status_of
  result_of [] = command_result (codes "No command specified") (pos 1)
  result_of (w ∷ ws) = let (output, exit) = exec (w ∷ ws) in command_result output (status_of exit)

  -- The program run, and the result.
  unfoldable pub execute_command : Bytes → List (List Bytes) × Response
  unfolding result_of words_run
  execute_command cmd = (words_run (fields cmd), result_of (fields cmd))

  -- A message under the base topic.
  unfoldable pub run_named : Config → Bytes → Bytes → Option Bytes → Reaction
  run_named config topic name (some cmd) =
      let (run, result) = execute_command cmd in
      record { executed = run; reply = some (topic ++ codes "/status", result) }
  run_named config topic name none = record {
    executed = [];
    reply =
        some
          (topic ++ codes "/status", command_result (not_found_text name config.commands) (pos 1));
  }

  -- The message's topic and the time of the answer; the payload is only logged.
  unfoldable pub handle_message : Config → Bytes → Bytes → Reaction
  unfolding run_named
  handle_message config now topic =
      let name = trim_prefix topic (config.topic ++ codes "/") in
      let (run, result) = execute_command config.command in
      if str_eq config.config_file []
      then record { executed = run; reply = some (config.topic ++ codes "/status", result) }
      else if str_eq topic config.topic
      then record {
        executed = [];
        reply = some (
          config.topic ++ codes "/status",
          status_response (codes "listening") (keys config.commands) now,
        );
      }
      else if has_prefix topic (config.topic ++ codes "/")
      then run_named config topic name (lookup name config.commands)
      else record { executed = []; reply = none }

-- The topics that the connect handler subscribes to.
unfoldable pub subscribe_topics : Config → List Bytes
subscribe_topics config =
    if str_eq config.config_file []
    then config.topic ∷ []
    else config.topic ∷ (config.topic ++ codes "/+") ∷ []

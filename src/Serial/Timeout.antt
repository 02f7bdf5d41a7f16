-- ===== src/Serial/Timeout.antt =====
-- executeScriptWithTimeout of cmd/serial_expect/main.go: the script against the end of a context.
pub mod Deadline
use mqtt_home_automation.Base.{Bool, true, false, List, [], ◌∷◌, Option, none, some, if◌then◌else◌}
use mqtt_home_automation.Base.Int.{ℤ}
use mqtt_home_automation.Serial.Config.{Command, monitor}
use mqtt_home_automation.Serial.Errors.{Error}
use mqtt_home_automation.Serial.Port.{World, Outcome, done, waiting, failed, Env}
use mqtt_home_automation.Serial.Monitor.{day}
use mqtt_home_automation.Serial.Execute.{execute_script}

pub data TimeoutError : Type 0 where
  command_error : Error → TimeoutError
  timeout_exceeded : ℤ → TimeoutError
  extended_exceeded : TimeoutError

-- A command of the type "monitor" is among the commands.
pub has_monitor : List Command → Bool
has_monitor [] = false
has_monitor (monitor v ∷ cs) = true
has_monitor (c ∷ cs) = has_monitor cs

-- How long the context lives, in nanoseconds.
pub deadline : ℤ → List Command → ℤ
deadline script_timeout commands = if has_monitor commands then day else script_timeout

expired : ℤ → List Command → TimeoutError
expired script_timeout commands =
    if has_monitor commands then extended_exceeded else timeout_exceeded script_timeout

-- The select: what the script returned, if it did so in time.
select_done : TimeoutError → Bool → Outcome → Option TimeoutError
select_done e in_time waiting = some e
select_done e false _ = some e
select_done e true done = none
select_done e true (failed f) = some (command_error f)

-- The error returned. Whether a script that returns does so before the context ends is an argument.
unfoldable pub execute_script_with_timeout :
    Env → ℤ → Bool → List Command → World → Option TimeoutError
unfolding select_done expired
execute_script_with_timeout env script_timeout in_time commands w =
    select_done (expired script_timeout commands) in_time (execute_script env commands w).0

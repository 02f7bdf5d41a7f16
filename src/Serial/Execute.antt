-- ===== src/Serial/Execute.antt =====
-- executeScript of cmd/serial_expect/main.go.
pub mod Order
pub mod Ends
use mqtt_home_automation.Base.{List, [], ◌∷◌}
use mqtt_home_automation.Serial.Config.{Command, send, expect, monitor, try}
use mqtt_home_automation.Serial.Port.{World, Outcome, done, waiting, failed, Env, handle_send}
use mqtt_home_automation.Serial.Expect.{handle_expect}
use mqtt_home_automation.Serial.Monitor.{handle_monitor}
use mqtt_home_automation.Serial.Try.{handle_try}

abbrev after_command : (World → Outcome × World) → Outcome × World → Outcome × World
after_command rest (done, w) = rest w
after_command rest (failed e, w) = (failed e, w)
after_command rest (waiting, w) = (waiting, w)

module _ (env : Env) where
  unfoldable pub run_command : Command → World → Outcome × World
  run_command (send v) w = handle_send v w
  run_command (expect v) w = handle_expect env v w
  run_command (try name block script_map) w = handle_try env block script_map w
  run_command (monitor v) w = handle_monitor env v w

  -- The first error ends the script.
  unfoldable pub execute_script : List Command → World → Outcome × World
  execute_script [] w = (done, w)
  execute_script (c ∷ cs) w = after_command (execute_script cs) (run_command c w)

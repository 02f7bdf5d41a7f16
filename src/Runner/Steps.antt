-- ===== src/Runner/Steps.antt =====
-- The server of cmd/command_runner_server/main.go as a system of steps: requests to run a command and
-- ticks of the file watcher, in any order. The commands run, the file system and what the
-- configuration file holds are chosen anew for each step. A step is a whole handler: requests that
-- overlap, for which the program has no lock, are not in it.
pub mod Invariant
pub mod Outputs
use mqtt_home_automation.Base.{ℕ, Bool, List, Option}
use mqtt_home_automation.Base.Result.{Result}
use mqtt_home_automation.Text.{Bytes}
use mqtt_home_automation.Runner.State.{State, Config, LoadError}
use mqtt_home_automation.Runner.Output.{run_command_handler}
use mqtt_home_automation.Runner.Watcher.{watch_tick}

pub data Step : State → State → Type 0 where
  run :
      (exec : List Bytes → Bytes × Option Bytes) (timestamp method name command : Bytes) (s : State)
      → Step s (run_command_handler exec timestamp method name command s)
  tick :
      (glob : Bytes → Option (List Bytes)) (mod_time : Bytes → Option ℕ)
      (file : Result LoadError Config) (parses : Bytes → Bool) (now : ℕ) (s : State)
      → Step s (watch_tick glob mod_time file parses now s)

pub data Reach (start : State) : State → Type 0 where
  here : Reach start start
  next : {a b : State} → Reach start a → Step a b → Reach start b

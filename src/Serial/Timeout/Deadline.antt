-- ===== src/Serial/Timeout/Deadline.antt =====
-- Which scripts get more time, and how a run under a timeout ends.
use mqtt_home_automation.Base.{◌≡◌, refl, ◌↔◌, Bool, true, false, List, Option, none, some}
use mqtt_home_automation.Base.Int.{ℤ}
use mqtt_home_automation.Base.Result.{ok}
use mqtt_home_automation.Text.{Bytes}
use mqtt_home_automation.Serial.Config.{Config, Command, TryBlock}
use mqtt_home_automation.Serial.Port.{World, Outcome, done, waiting, failed, Env}
use mqtt_home_automation.Serial.Execute.{execute_script}
use mqtt_home_automation.Serial.Select.{parse_try_block, find_try, try_command}
use mqtt_home_automation.Serial.Timeout.{
  TimeoutError, has_monitor, deadline, select_done, execute_script_with_timeout,
}

deadline-try_command :
    (config : Config) (name : Bytes) (o : Option TryBlock) (cs : List Command) (t : ℤ)
    → try_command config name o ≡ ok cs
    → deadline t cs ≡ t
unfolding try_command deadline has_monitor
deadline-try_command config name none cs t h = cc
deadline-try_command config name (some block) cs t h = cc h

-- The time that a try block has is never extended, whatever monitor commands its scripts hold.
pub deadline-parse_try_block :
    (config : Config) (name : Bytes) (cs : List Command) (t : ℤ)
    → parse_try_block config name ≡ ok cs
    → deadline t cs ≡ t
unfolding parse_try_block
deadline-parse_try_block config name cs t h =
    deadline-try_command config name (find_try name config.tries) cs t h

select_done-none :
    (e : TimeoutError) (in_time : Bool) (o : Outcome)
    → (select_done e in_time o ≡ none) ↔ ((in_time ≡ true) × (o ≡ done))
unfolding select_done
select_done-none e true done = (λ x. (refl, refl), λ x. refl)
select_done-none e true waiting = (λ x. cc, λ x. cc (x.1))
select_done-none e true (failed f) = (λ x. cc, λ x. cc (x.1))
select_done-none e false done = (λ x. cc, λ x. cc (x.0))
select_done-none e false waiting = (λ x. cc, λ x. cc (x.0))
select_done-none e false (failed f) = (λ x. cc, λ x. cc (x.0))

-- A run under a timeout succeeds exactly if the script ends well, and in time.
pub execute_script_with_timeout_succeeds :
    (env : Env) (t : ℤ) (in_time : Bool) (cs : List Command) (w : World)
    → (execute_script_with_timeout env t in_time cs w ≡ none)
      ↔ ((in_time ≡ true) × ((execute_script env cs w).0 ≡ done))
unfolding execute_script_with_timeout
execute_script_with_timeout_succeeds env t in_time cs w = select_done-none _ in_time _

-- ===== src/Serial/Monitor/Ends.antt =====
-- A monitor command without a count of lines ends when its timer fires.
use mqtt_home_automation.Base.{
  ◌≡◌, refl, true, false, List, [], ◌∷◌, Option, none, some, arith, ℕ, suc,
}
use mqtt_home_automation.Base.Int.{ℤ, is_zero, is_positive, pos, negsuc}
use mqtt_home_automation.Text.{Bytes, codes, str_eq}
use mqtt_home_automation.Serial.Port.{Event, recv, elapsed, World, waiting, Env}
use mqtt_home_automation.Serial.Port.Timers.{Takes, Takes-none}
use mqtt_home_automation.Serial.Monitor.{
  Limits, Watch, take_char, parse_limits, monitor_loop, monitor_with, handle_monitor,
}
use mqtt_home_automation.Serial.Monitor.Lines.{and_false}

-- There is no limit of lines, or the parameter is invalid.
abbrev pub HasNoCount : Option Limits → Type 0
HasNoCount none = Unit
HasNoCount (some limits) = is_zero limits.max_lines ≡ true

zero-positive : (n : ℤ) → is_zero n ≡ true → is_positive n ≡ false
zero-positive (pos ℕ.zero) h = refl
zero-positive (pos (suc n)) h = absurd (cc h)
zero-positive (negsuc n) h = refl

monitor_loop-Takes :
    (max_lines : ℤ) (events : List Event) (m : Watch)
    → is_zero max_lines ≡ true
    → is_positive max_lines ≡ false
    → Takes 1 events
        ((monitor_loop max_lines events m).0 ≡ waiting)
        (monitor_loop max_lines events m).1
unfolding monitor_loop
monitor_loop-Takes max_lines [] m z p = record {
  ends = λ e. absurd (omega arith);
  left = omega arith;
}
monitor_loop-Takes max_lines (elapsed ∷ events) m z p =
    rw z (record { ends = λ e x. cc x; left = omega arith })
monitor_loop-Takes max_lines (recv char ∷ events) m z p =
    let rest = monitor_loop-Takes max_lines events (take_char char m) z p in
    rw (p, and_false (str_eq char (codes "\n"))) (record { ends = rest.ends; left = rest.left })

monitor_with-Takes :
    (parameter : Bytes) (o : Option Limits) (w : World)
    → HasNoCount o
    → Takes 1 w.events
        ((monitor_with parameter o w).0 ≡ waiting)
        (monitor_with parameter o w).1.events
unfolding monitor_with
monitor_with-Takes parameter none w h = Takes-none 1 w.events (λ x. cc x)
monitor_with-Takes parameter (some limits) w h =
    monitor_loop-Takes limits.max_lines w.events _ h (zero-positive limits.max_lines h)

pub handle_monitor-Takes :
    (env : Env) (parameter : Bytes) (w : World)
    → HasNoCount (parse_limits env parameter)
    → Takes 1 w.events
        ((handle_monitor env parameter w).0 ≡ waiting)
        (handle_monitor env parameter w).1.events
unfolding handle_monitor
handle_monitor-Takes env parameter w h =
    monitor_with-Takes parameter (parse_limits env parameter) w h

-- ===== src/Runner/Duration.antt =====
-- formatDuration of cmd/command_runner_server/main.go, for durations that are not negative, in
-- nanoseconds. The floating-point hours, minutes and seconds of the package time, cut to integers,
-- are a parameter.
pub mod Sum
use mqtt_home_automation.Base.{ℕ, ◌/◌, ◌%◌, ◌≡◌, refl, ◌++◌, ltb, if◌then◌else◌}
use mqtt_home_automation.Text.{Bytes, codes, itoa}

-- int(d.Hours()), int(d.Minutes()) and int(d.Seconds())
pub record Clock : Type 0 where
  pub hours : ℕ → ℕ
  pub minutes : ℕ → ℕ
  pub seconds : ℕ → ℕ

pub record Parts : Type 0 where
  pub days : ℕ
  pub hours : ℕ
  pub minutes : ℕ
  pub seconds : ℕ

pub parts_of : Clock → ℕ → Parts
parts_of clock d = record {
  days = clock.hours d / 24;
  hours = clock.hours d % 24;
  minutes = clock.minutes d % 60;
  seconds = clock.seconds d % 60;
}

print_parts : Parts → Bytes
unfolding itoa
print_parts p =
    let s = itoa p.seconds ++ codes "s" in
    let m = itoa p.minutes ++ (codes "m " ++ s) in
    let h = itoa p.hours ++ (codes "h " ++ m) in
    if ltb 0 p.days
    then itoa p.days ++ (codes "d " ++ h)
    else if ltb 0 p.hours
    then h
    else if ltb 0 p.minutes
    then m
    else s

unfoldable pub format_duration : Clock → ℕ → Bytes
unfolding parts_of print_parts
format_duration clock d = print_parts (parts_of clock d)

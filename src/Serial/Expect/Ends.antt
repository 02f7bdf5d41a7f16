-- ===== src/Serial/Expect/Ends.antt =====
-- An expect command ends when its timer fires.
use mqtt_home_automation.Base.{◌≡◌, List, [], ◌∷◌, ◌++◌, arith, Bool-cases, inl, inr}
use mqtt_home_automation.Base.Result.{Result, ok, err}
use mqtt_home_automation.Text.{Bytes}
use mqtt_home_automation.Serial.Errors.{Error}
use mqtt_home_automation.Serial.Port.{Event, recv, elapsed, World, waiting, Env}
use mqtt_home_automation.Serial.Port.Timers.{Takes, Takes-none}
use mqtt_home_automation.Serial.Pattern.{ExpectPattern, parse_expect_pattern, check_match}
use mqtt_home_automation.Serial.Expect.{next_line, expect_loop, expect_parsed, handle_expect}

expect_loop-Takes :
    (pattern : Bytes) (ep : ExpectPattern) (events : List Event) (buffer line : Bytes)
    → Takes 1 events
        ((expect_loop pattern ep events buffer line).0 ≡ waiting)
        (expect_loop pattern ep events buffer line).1
unfolding expect_loop
expect_loop-Takes pattern ep [] buffer line = record {
  ends = λ e. absurd (omega arith);
  left = omega arith;
}
expect_loop-Takes pattern ep (elapsed ∷ events) buffer line = record {
  ends = λ e x. cc x;
  left = omega arith;
}
expect_loop-Takes pattern ep (recv char ∷ events) buffer line =
    let rest = expect_loop-Takes pattern ep events (buffer ++ char) (next_line line char) in
    elim (Bool-cases (check_match ep (buffer ++ char) (next_line line char))) [
      | inl e ↦ rw e (record { ends = λ h x. cc x; left = omega arith })
      | inr e ↦ rw e (record { ends = rest.ends; left = rest.left })
    ]

expect_parsed-Takes :
    (env : Env) (pattern : Bytes) (r : Result Error ExpectPattern) (w : World)
    → Takes 1 w.events
        ((expect_parsed pattern r env w).0 ≡ waiting)
        (expect_parsed pattern r env w).1.events
unfolding expect_parsed
expect_parsed-Takes env pattern (err e) w = Takes-none 1 w.events (λ x. cc x)
expect_parsed-Takes env pattern (ok ep) w = expect_loop-Takes pattern ep w.events [] []

pub handle_expect-Takes :
    (env : Env) (pattern : Bytes) (w : World)
    → Takes 1 w.events
        ((handle_expect env pattern w).0 ≡ waiting)
        (handle_expect env pattern w).1.events
unfolding handle_expect
handle_expect-Takes env pattern w =
    expect_parsed-Takes env pattern (parse_expect_pattern env.compile pattern) w

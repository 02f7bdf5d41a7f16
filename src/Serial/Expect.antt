-- ===== src/Serial/Expect.antt =====
-- handleExpect of cmd/serial_expect/main.go.
pub mod Stream
pub mod Lines
pub mod Ends
use mqtt_home_automation.Base.{List, [], ◌∷◌, ◌++◌, if◌then◌else◌}
use mqtt_home_automation.Base.Result.{Result, ok, err}
use mqtt_home_automation.Text.{Bytes, codes, str_eq}
use mqtt_home_automation.Serial.Errors.{Error, invalid_expect_pattern, receive_timeout}
use mqtt_home_automation.Serial.Pattern.{ExpectPattern, parse_expect_pattern, check_match}
use mqtt_home_automation.Serial.Port.{
  Event, recv, elapsed, World, Outcome, done, waiting, failed, Env,
}

-- The line so far, after a text from the channel.
unfoldable pub next_line : Bytes → Bytes → Bytes
unfolding str_eq
next_line current_line char = if str_eq char (codes "\n") then [] else current_line ++ char

-- The loop of selects, with the stream and the line so far; what it leaves of the events.
expect_loop : Bytes → ExpectPattern → List Event → Bytes → Bytes → Outcome × List Event
expect_loop pattern ep [] buffer current_line = (waiting, [])
expect_loop pattern ep (elapsed ∷ events) buffer current_line =
    (failed (receive_timeout pattern), events)
expect_loop pattern ep (recv char ∷ events) buffer current_line =
    let buffer' = buffer ++ char in
    let line' = next_line current_line char in
    let rest = expect_loop pattern ep events buffer' line' in
    if check_match ep buffer' line' then (done, events) else rest

expect_parsed : Bytes → Result Error ExpectPattern → Env → World → Outcome × World
unfolding expect_loop
expect_parsed pattern (err e) env w = (failed (invalid_expect_pattern pattern e), w)
expect_parsed pattern (ok ep) env w =
    let (outcome, events) = expect_loop pattern ep w.events [] [] in
    (outcome, record w { events = events; timers = w.timers ++ env.receive_timeout ∷ [] })

unfoldable pub handle_expect : Env → Bytes → World → Outcome × World
unfolding expect_parsed
handle_expect env pattern w = expect_parsed pattern (parse_expect_pattern env.compile pattern) env w

-- ===== src/Serial/Port.antt =====
-- The world of a running script in cmd/serial_expect/main.go: the serial port (go.bug.st/serial),
-- the channel from the reader and the timers, with handleSend and readSerial.
-- What the environment decides is part of the state: the events that the selects take, in their
-- order, and the results of the writes still to come.
pub mod Reader
pub mod Timers
use mqtt_home_automation.Base.{
  ℕ, ◌-◌, Bool, ◌&&◌, List, [], ◌∷◌, ◌++◌, Option, none, some, length, leb, ◌==◌, if◌then◌else◌,
}
use mqtt_home_automation.Base.Int.{ℤ}
use mqtt_home_automation.Text.{Bytes, codes, replace_all}
use mqtt_home_automation.Serial.Pattern.{byte_at, slice}
use mqtt_home_automation.Serial.Errors.{Error, send_failed}

-- What a select takes: a text from the channel, or the timer that is armed.
pub data Event : Type 0 where
  recv : Bytes → Event
  elapsed : Event

pub record World : Type 0 where
  -- the events to come; at the end of the list nothing more happens
  pub events : List Event
  -- the errors of the next writes; a write beyond the list succeeds
  pub write_results : List (Option Bytes)
  -- the data of the writes that succeeded, in order
  pub tx : List Bytes
  -- the data handed to the port's Write, in order; of data whose write fails, the program does not
  -- learn how much the port has taken
  pub handed : List Bytes
  -- the lines that monitor commands have logged
  pub shown : List Bytes
  -- the durations of the timers armed, in nanoseconds
  pub timers : List ℤ

-- How a command ends. A command that waits for an event that never comes does not end.
pub data Outcome : Type 0 where
  done waiting : Outcome
  failed : Error → Outcome

-- The parts of Go's library that are parameters, and the receive timeout.
pub record Env : Type 0 where
  -- regexp.Compile and MatchString
  pub compile : Bytes → Option (Bytes → Bool)
  -- time.ParseDuration, in nanoseconds
  pub parse_duration : Bytes → Option ℤ
  pub receive_timeout : ℤ

-- The parsed send syntax of handleSend.
to_send : Bytes → Bytes
unfolding replace_all
to_send value =
    if leb 2 (length value)
    then (let first = byte_at value 0 in
        let last = byte_at value (length value - 1) in
        let content = slice value 1 (length value - 1) in
        if first == b'\'' && last == b'\''
        then content ++ codes "\r"
        else if first == b'"' && last == b'"'
        then replace_all (replace_all content (codes "\\r") (codes "\r")) (codes "\\n") (codes "\n")
        else value)
    else value

-- The error of a write, and its data.
unfoldable pub record_write : Option Bytes → Bytes → World → World
record_write none data' w = record w { tx = w.tx ++ data' ∷ []; handed = w.handed ++ data' ∷ [] }
record_write (some e) data' w = record w { handed = w.handed ++ data' ∷ [] }

-- se.port.Write
write : Bytes → World → Option Bytes × World
unfolding record_write
write data' w = elim w.write_results [
  | [] ↦ (none, record_write none data' w)
  | r ∷ rs ↦ (r, record_write r data' (record w { write_results = rs }))
]

sent : Option Bytes → Outcome
sent none = done
sent (some e) = failed (send_failed e)

unfoldable pub handle_send : Bytes → World → Outcome × World
unfolding to_send sent write
handle_send value w = let (r, w') = write (to_send value) w in (sent r, w')

-- ===== src/Serial/Monitor/Duration.antt =====
-- A monitor command with a duration, on what the reader reads from the port.
use mqtt_home_automation.Base.{
  ℕ, ◌<◌, ◌≡◌, ◌⊎◌, refl, ap, ◌∙◌, false, List, [], ◌∷◌, ◌++◌, map, some, All, inl, inr,
}
use mqtt_home_automation.Base.Int.{ℤ, pos}
use mqtt_home_automation.Text.{Bytes, codes, str_eq}
use mqtt_home_automation.Serial.Port.{recv, elapsed, World, Event, done, Env}
use mqtt_home_automation.Serial.Port.Reader.{byte, read_serial}
use mqtt_home_automation.Serial.Monitor.{
  Watch, take_char, monitor_loop, monitor_with, parse_limits, handle_monitor, day,
}
use mqtt_home_automation.Serial.Monitor.Lines.{monitor_loop-read_serial, and_false}

-- The timer ends the loop behind the texts, with what these have made of the lines.
monitor_loop-elapsed :
    (texts : List Bytes) (rest : List Event) (m : Watch)
    → monitor_loop (pos 0) (map recv texts ++ elapsed ∷ rest) m
      ≡ (done, rest, (monitor_loop (pos 0) (map recv texts) m).2)
unfolding monitor_loop
monitor_loop-elapsed [] rest m = refl
monitor_loop-elapsed (t ∷ texts) rest m =
    rw (and_false (str_eq t (codes "\n"))) (monitor_loop-elapsed texts rest (take_char t m))

started : Watch
started = record { buffer = []; line_count = 0; lines = [] }

monitor_with-times :
    (parameter : Bytes) (d : ℤ) (bs : List ℕ) (rest : List Event) (w : World)
    → All (λ c. c < 128) bs
    → w.events ≡ map recv (read_serial (map byte bs) []).0 ++ elapsed ∷ rest
    → monitor_with parameter (some (record { monitor_duration = d; max_lines = pos 0 })) w ≡ (
      done,
      record w {
        events = rest;
        shown = w.shown ++ (read_serial (map byte bs) []).1;
        timers = w.timers ++ d ∷ [];
      },
    )
unfolding monitor_with started
monitor_with-times parameter d bs rest w ascii comes =
    let logged = monitor_loop-read_serial bs started ascii in
    let ends =
      ap (λ es. monitor_loop (pos 0) es started) comes
      ∙ monitor_loop-elapsed (read_serial (map byte bs) []).0 rest started in
    rw (ends, logged) refl

-- A monitor command without a parameter, which means a day, or with a duration: if ASCII bytes come
-- from the port and then the timer fires, it ends, has armed one timer of that duration, has logged
-- the lines that the reader logs for the bytes, and leaves the events behind as they are.
pub handle_monitor_times :
    (env : Env) (parameter : Bytes) (d : ℤ) (bs : List ℕ) (rest : List Event) (w : World)
    → ((parameter ≡ []) × (d ≡ day))
      ⊎ ((str_eq parameter [] ≡ false) × (env.parse_duration parameter ≡ some d))
    → All (λ c. c < 128) bs
    → w.events ≡ map recv (read_serial (map byte bs) []).0 ++ elapsed ∷ rest
    → handle_monitor env parameter w ≡ (
      done,
      record w {
        events = rest;
        shown = w.shown ++ (read_serial (map byte bs) []).1;
        timers = w.timers ++ d ∷ [];
      },
    )
unfolding handle_monitor parse_limits str_eq
handle_monitor_times env parameter d bs rest w limits ascii comes =
    ap (λ l. monitor_with parameter l w) (is_timed limits)
    ∙ monitor_with-times parameter d bs rest w ascii comes
  where
    is_timed :
        ((parameter ≡ []) × (d ≡ day))
          ⊎ ((str_eq parameter [] ≡ false) × (env.parse_duration parameter ≡ some d))
        → parse_limits env parameter ≡ some (record { monitor_duration = d; max_lines = pos 0 })
    is_timed (inl (none_given, a_day)) = rw (none_given, a_day) refl
    is_timed (inr (given, parsed)) = rw (given, parsed) refl

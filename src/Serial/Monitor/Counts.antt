-- ===== src/Serial/Monitor/Counts.antt =====
-- How long a monitor command with a count of lines runs.
use mqtt_home_automation.Base.{
  ℕ, suc, ◌+◌, ◌≤◌, ◌≡◌, ◌↔◌, refl, false, List, [], ◌∷◌, ◌++◌, none, some, arith, if◌then◌else◌,
  leb, Bool-cases, inl, inr, length, length-append,
}
use mqtt_home_automation.Base.Int.{pos, negsuc}
use mqtt_home_automation.Text.{Bytes, codes, str_eq}
use mqtt_home_automation.Text.Number.{atoi}
use mqtt_home_automation.Serial.Port.{Event, recv, elapsed, World, Outcome, done, waiting, Env}
use mqtt_home_automation.Serial.Pattern.{byte_at}
use mqtt_home_automation.Serial.Port.Reader.{trim_line_end}
use mqtt_home_automation.Serial.Monitor.{Watch, take_char, monitor_loop, handle_monitor}

-- The newlines that come.
abbrev pub newlines : List Event → ℕ
newlines [] = 0
newlines (elapsed ∷ events) = newlines events
newlines (recv char ∷ events) = (if str_eq char (codes "\n") then 1 else 0) + newlines events

monitor_loop_negative :
    (k : ℕ) (events : List Event) (m : Watch) → (monitor_loop (negsuc k) events m).0 ≡ waiting
unfolding monitor_loop
monitor_loop_negative k [] m = refl
monitor_loop_negative k (elapsed ∷ events) m = monitor_loop_negative k events m
monitor_loop_negative k (recv char ∷ events) m =
    ground (arith, monitor_loop_negative k events (take_char char m))

-- What a run with the limit of suc n lines has done, when it began below the limit.
record Counted (n : ℕ) (events : List Event) (m : Watch) (r : Outcome × List Event × Watch)
    : Type 0 where
  when_done : r.0 ≡ done → (suc n ≤ m.line_count + newlines events) × (r.2.line_count ≡ suc n)
  when_enough : suc n ≤ m.line_count + newlines events → r.0 ≡ done
  logged : length r.2.lines + m.line_count ≡ length m.lines + r.2.line_count

take_char_counts :
    (char : Bytes) (m : Watch)
    → ((take_char char m).line_count ≡ m.line_count + (if str_eq char (codes "\n") then 1 else 0))
      × (length (take_char char m).lines + m.line_count
          ≡ length m.lines + (take_char char m).line_count)
unfolding take_char
take_char_counts char m =
    ground (arith, length-append m.lines (trim_line_end (m.buffer ++ byte_at char 0 ∷ []) ∷ []))

monitor_loop-Counted :
    (n : ℕ) (events : List Event) (m : Watch)
    → m.line_count ≤ n
    → Counted n events m (monitor_loop (pos (suc n)) events m)
unfolding monitor_loop
monitor_loop-Counted n [] m h = record {
  when_done = λ e. absurd (cc e);
  when_enough = λ e. absurd (omega arith);
  logged = refl;
}
monitor_loop-Counted n (elapsed ∷ events) m h =
    let r = monitor_loop-Counted n events m h in
    record { when_done = r.when_done; when_enough = r.when_enough; logged = r.logged }
monitor_loop-Counted n (recv char ∷ events) m h =
    let (count, kept) = take_char_counts char m in
    let m' = take_char char m in
    let rec = monitor_loop-Counted n events m' in
    elim (Bool-cases (str_eq char (codes "\n"))) [
      | inl nl ↦ elim (Bool-cases (leb (suc n) m'.line_count)) [
        | inl full ↦
            rw (nl, full)
              (record {
                when_done = λ _. (ground arith, ground arith);
                when_enough = λ _. refl;
                logged = ground arith;
              })
        | inr room ↦
            let r = rec (ground arith) in
            rw (nl, room)
              (record {
                when_done = λ d. let (a, b) = r.when_done d in (ground arith, b);
                when_enough = λ e. r.when_enough (ground arith);
                logged = ground (arith, r.logged);
              })
      ]
      | inr other ↦
          let r = rec (ground arith) in
          rw other (record {
            when_done = λ d. let (a, b) = r.when_done d in (ground arith, b);
            when_enough = λ e. r.when_enough (ground arith);
            logged = ground (arith, r.logged);
          })
    ]

-- A monitor command whose parameter is no duration but a negative count, which Atoi accepts, never
-- ends: whatever events come, it waits for more.
pub handle_monitor_negative :
    (env : Env) (parameter : Bytes) (k : ℕ) (w : World)
    → str_eq parameter [] ≡ false
    → env.parse_duration parameter ≡ none
    → atoi parameter ≡ some (negsuc k)
    → (handle_monitor env parameter w).0 ≡ waiting
unfolding handle_monitor
handle_monitor_negative env parameter k w e d a = rw (e, d, a) (monitor_loop_negative k w.events _)

-- A monitor command whose parameter is no duration but a positive count n of lines ends exactly if
-- n newlines come, and it arms no timer.
pub handle_monitor_counts :
    (env : Env) (parameter : Bytes) (n : ℕ) (w : World)
    → str_eq parameter [] ≡ false
    → env.parse_duration parameter ≡ none
    → atoi parameter ≡ some (pos (suc n))
    → ((((handle_monitor env parameter w).0 ≡ done) ↔ (suc n ≤ newlines w.events)))
      × ((handle_monitor env parameter w).1.timers ≡ w.timers)
unfolding handle_monitor
handle_monitor_counts env parameter n w e d a =
    let start : Watch = record { buffer = []; line_count = 0; lines = [] } in
    let c = monitor_loop-Counted n w.events start (omega arith) in
    rw (e, d, a) ((λ x. omega (arith, (c.when_done x).0), λ x. c.when_enough (omega arith)), refl)

-- A monitor command whose parameter is no duration but a positive count n of lines, and that ends,
-- has logged exactly n lines.
pub handle_monitor_logs :
    (env : Env) (parameter : Bytes) (n : ℕ) (w : World)
    → str_eq parameter [] ≡ false
    → env.parse_duration parameter ≡ none
    → atoi parameter ≡ some (pos (suc n))
    → (handle_monitor env parameter w).0 ≡ done
    → length (handle_monitor env parameter w).1.shown ≡ length w.shown + suc n
unfolding handle_monitor
handle_monitor_logs env parameter n w e d a =
    let start : Watch = record { buffer = []; line_count = 0; lines = [] } in
    let c = monitor_loop-Counted n w.events start (omega arith) in
    rw (e, d, a)
      (λ x. omega (
        arith,
        (c.when_done x).1,
        c.logged,
        length-append w.shown (monitor_loop (pos (suc n)) w.events start).2.lines,
      ))

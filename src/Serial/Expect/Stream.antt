-- ===== src/Serial/Expect/Stream.antt =====
-- When an expect command ends, and with which events left.
use mqtt_home_automation.Base.{
  ◌≡◌, ◌≢◌, ◌↔◌, ◌⊎◌, refl, ap, Bool, true, false, List, [], ◌∷◌, ◌++◌, map, append-nil,
  append_assoc, arith, if◌then◌else◌, Bool-cases, inl, inr,
}
use mqtt_home_automation.Base.Result.{ok}
use mqtt_home_automation.Text.{Bytes, contains, to_lower}
use mqtt_home_automation.Text.Search.{contains_grow, to_lower-append}
use mqtt_home_automation.Serial.Pattern.{
  ExpectPattern, case_insensitive, check_match, parse_expect_pattern,
}
use mqtt_home_automation.Serial.Pattern.Quotes.{quoted, parse_expect_pattern-print_pattern}
use mqtt_home_automation.Serial.Port.{Event, recv, elapsed, World, Outcome, done, Env}
use mqtt_home_automation.Serial.Expect.{next_line, expect_loop, handle_expect}

abbrev pub stream : List Bytes → Bytes
stream [] = []
stream (c ∷ cs) = c ++ stream cs

-- The line so far after more texts.
abbrev line_after : Bytes → List Bytes → Bytes
line_after line [] = line
line_after line (c ∷ cs) = line_after (next_line line c) cs

-- No prefix of the texts but the empty one makes a match.
abbrev NoMatch : ExpectPattern → List Bytes → Bytes → Bytes → Type 0
NoMatch ep [] buffer line = Unit
NoMatch ep (c ∷ cs) buffer line =
    (check_match ep (buffer ++ c) (next_line line c) ≡ false)
    × NoMatch ep cs (buffer ++ c) (next_line line c)

-- The texts up to a match: the last makes it, and none before does.
pub record FirstMatch (ep : ExpectPattern) (events left : List Event) (buffer line : Bytes)
    : Type 0 where
  pub before : List Bytes
  pub last : Bytes
  pub splits : events ≡ map recv (before ++ last ∷ []) ++ left
  pub matches :
      check_match ep
        (buffer ++ stream (before ++ last ∷ []))
        (line_after line (before ++ last ∷ []))
      ≡ true
  pub none_before : NoMatch ep before buffer line

match_now :
    (ep : ExpectPattern) (c : Bytes) (events : List Event) (buffer line : Bytes)
    → check_match ep (buffer ++ c) (next_line line c) ≡ true
    → FirstMatch ep (recv c ∷ events) events buffer line
match_now ep c events buffer line h = record {
  before = [];
  last = c;
  splits = refl;
  matches = rw append-nil h;
  none_before = tt;
}

match_later :
    (ep : ExpectPattern) (c : Bytes) (events left : List Event) (buffer line : Bytes)
    → check_match ep (buffer ++ c) (next_line line c) ≡ false
    → FirstMatch ep events left (buffer ++ c) (next_line line c)
    → FirstMatch ep (recv c ∷ events) left buffer line
match_later ep c events left buffer line h f = record {
  before = c ∷ f.before;
  last = f.last;
  splits = ap (λ (es : List Event). recv c ∷ es) f.splits;
  matches = rw append_assoc at f.matches;
  none_before = (h, f.none_before);
}

expect_loop_first :
    (pattern : Bytes) (ep : ExpectPattern) (events left : List Event) (buffer line : Bytes)
    → expect_loop pattern ep events buffer line ≡ (done, left)
    → FirstMatch ep events left buffer line
unfolding expect_loop
expect_loop_first pattern ep [] left buffer line h = absurd (cc h)
expect_loop_first pattern ep (elapsed ∷ events) left buffer line h = absurd (cc h)
expect_loop_first pattern ep (recv c ∷ events) left buffer line h =
    step (Bool-cases _) (expect_loop_first pattern ep events left (buffer ++ c) (next_line line c))
  where
    step :
        (check_match ep (buffer ++ c) (next_line line c) ≡ true)
          ⊎ (check_match ep (buffer ++ c) (next_line line c) ≡ false)
        → (expect_loop pattern ep events (buffer ++ c) (next_line line c) ≡ (done, left)
            → FirstMatch ep events left (buffer ++ c) (next_line line c))
        → FirstMatch ep (recv c ∷ events) left buffer line
    step (inl e) rec =
        let same : events ≡ left =
          ap (λ (r : Outcome × List Event). r.1) (rw (e, expect_loop) at h) in
        rw (← same) (match_now ep c events buffer line e)
    step (inr e) rec = match_later ep c events left buffer line e (rec (rw (e, expect_loop) at h))

-- An expect command that succeeds was ended by a text after which its pattern matches, by no
-- earlier one, and leaves the events behind that text to the next command.
pub handle_expect_first :
    (env : Env) (pattern : Bytes) (ep : ExpectPattern) (w w' : World)
    → parse_expect_pattern env.compile pattern ≡ ok ep
    → handle_expect env pattern w ≡ (done, w')
    → FirstMatch ep w.events w'.events [] []
unfolding handle_expect
handle_expect_first env pattern ep w w' p h =
    expect_loop_first pattern ep w.events w'.events [] []
      (ground (arith, rw (p, handle_expect) at h))

-- The texts in front of the timeout decide the outcome of a search in the whole stream.
expect_loop_insensitive :
    (pattern p : Bytes) (cs : List Bytes) (rest : List Event) (buffer line : Bytes)
    → ((expect_loop pattern (case_insensitive p) (map recv cs ++ elapsed ∷ rest) buffer line).0
        ≡ done)
      ↔ ((cs ≢ []) × (contains (to_lower (buffer ++ stream cs)) (to_lower p) ≡ true))
unfolding expect_loop check_match
expect_loop_insensitive pattern p [] rest buffer line = (λ h. cc, λ h. absurd (h.0 refl))
expect_loop_insensitive pattern p (c ∷ cs) rest buffer line =
    step (Bool-cases _) (expect_loop_insensitive pattern p cs rest (buffer ++ c) (next_line line c))
  where
    now : Bool
    now = contains (to_lower (buffer ++ c)) (to_lower p)

    grown : now ≡ true → contains (to_lower (buffer ++ (c ++ stream cs))) (to_lower p) ≡ true
    grown e =
        let g = contains_grow (to_lower (buffer ++ c)) (to_lower (stream cs)) (to_lower p) e in
        rw (← to_lower-append, append_assoc) at g

    more :
        now ≡ false → contains (to_lower (buffer ++ (c ++ stream cs))) (to_lower p) ≡ true → cs ≢ []
    more e h q = let x : now ≡ true = rw (q, append-nil) at h in cc

    later : Outcome × List Event
    later =
        expect_loop pattern (case_insensitive p) (map recv cs ++ elapsed ∷ rest) (buffer ++ c)
          (next_line line c)

    step :
        (now ≡ true) ⊎ (now ≡ false)
        → (later.0 ≡ done)
          ↔ ((cs ≢ []) × (contains (to_lower (buffer ++ c ++ stream cs)) (to_lower p) ≡ true))
        → ((if now then (done, map recv cs ++ elapsed ∷ rest) else later).0 ≡ done)
          ↔ ((c ∷ cs ≢ []) × (contains (to_lower (buffer ++ (c ++ stream cs))) (to_lower p) ≡ true))
    step (inl e) rec = rw e (λ _. (λ x. cc, grown e), λ _. refl)
    step (inr e) rec = rw e (
      λ h. (λ x. cc, rw append_assoc at (rec.0 h).1),
      λ h. rec.1 (more e h.1, rw (← append_assoc) at h.1),
    )

-- An expect command with a pattern in single quotes that sees the texts cs before its timeout
-- succeeds exactly when there is a text and the stream, in lower case, holds the pattern, in lower
-- case.
pub handle_expect_insensitive :
    (env : Env) (p : Bytes) (cs : List Bytes) (rest : List Event) (w : World)
    → w.events ≡ map recv cs ++ elapsed ∷ rest
    → ((handle_expect env (quoted b'\'' p) w).0 ≡ done)
      ↔ ((cs ≢ []) × (contains (to_lower (stream cs)) (to_lower p) ≡ true))
unfolding handle_expect
handle_expect_insensitive env p cs rest w e =
    rw (parse_expect_pattern-print_pattern env.compile (case_insensitive p) tt, e)
      (expect_loop_insensitive (quoted b'\'' p) p cs rest [] [])

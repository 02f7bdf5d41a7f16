-- ===== src/Serial/Expect/Lines.antt =====
-- What an expect command with a pattern in double quotes looks for: the beginning of a line.
use mqtt_home_automation.Base.{
  ◌≡◌, ◌≢◌, ◌↔◌, ◌⊎◌, refl, true, false, List, [], ◌∷◌, ◌++◌, map, append-nil, append_assoc,
  Bool-cases, inl, inr, All, All-append, Any,
}
use mqtt_home_automation.Text.{Bytes, codes, str_eq, has_prefix, trim_space, split}
use mqtt_home_automation.Text.Equality.{str_eq-false}
use mqtt_home_automation.Text.Lines.{split-append, split_one, split_first, trim_space_grow}
use mqtt_home_automation.Serial.Pattern.{case_sensitive, check_match}
use mqtt_home_automation.Serial.Pattern.Quotes.{quoted, parse_expect_pattern-print_pattern}
use mqtt_home_automation.Serial.Port.{Event, recv, elapsed, World, Outcome, done, Env}
use mqtt_home_automation.Serial.Expect.{next_line, expect_loop, handle_expect}
use mqtt_home_automation.Serial.Expect.Stream.{stream}

-- A text as the reader puts it on the channel: a newline alone, or no newline.
abbrev pub IsRead : Bytes → Type 0
IsRead c = (c ≡ codes "\n") ⊎ All (λ b. b ≢ b'\n') c

-- A line that, once the white space at both of its ends is cut, begins with the text. So a text that
-- ends in white space begins no line that ends with it.
abbrev pub Begins : Bytes → Bytes → Type 0
Begins p line = has_prefix (trim_space line) p ≡ true

next_line_newline : (line : Bytes) → next_line line (codes "\n") ≡ []
unfolding next_line str_eq
next_line_newline line = refl

next_line_more : (line c : Bytes) → All (λ b. b ≢ b'\n') c → next_line line c ≡ line ++ c
unfolding next_line
next_line_more line c h = rw (str_eq-false c (codes "\n") (ne c h))
  where
    ne : (c : Bytes) → All (λ b. b ≢ b'\n') c → c ≢ codes "\n"
    ne [] h = λ e. cc
    ne (b ∷ c) (hb, h) = λ e. hb (cc e)

no_begin : (p : Bytes) → p ≢ [] → has_prefix (trim_space []) p ≡ false
unfolding trim_space has_prefix
no_begin [] n = absurd (n refl)
no_begin (c ∷ p) n = refl

module _ (pattern p : Bytes) (rest : List Event) (n : p ≢ []) where
  -- The loop, from a line so far.
  loop : List Bytes → Bytes → Bytes → Outcome × List Event
  loop cs buffer line =
      expect_loop pattern (case_sensitive p) (map recv cs ++ elapsed ∷ rest) buffer line

  -- A line that begins with the text, as far as it has come, does so as a whole.
  first-Begins :
      (line s : Bytes)
      → All (λ b. b ≢ b'\n') line
      → Begins p line
      → Any (Begins p) (split (line ++ s) b'\n')
  first-Begins line s h b =
      let (more, ls, e) = split_first line s h in rw e (inl (trim_space_grow line more p n b))

  loop_lines :
      (cs : List Bytes) (buffer line : Bytes)
      → All IsRead cs
      → All (λ b. b ≢ b'\n') line
      → has_prefix (trim_space line) p ≡ false
      → ((loop cs buffer line).0 ≡ done) ↔ Any (Begins p) (split (line ++ stream cs) b'\n')
  unfolding loop expect_loop check_match
  loop_lines [] buffer line h l b =
      rw (append-nil line, split_one line l)
        (λ x. cc, elim [ inl x ↦ cc (x, b) | inr y ↦ absurd y ])
  loop_lines (c ∷ cs) buffer line (inl e, h) l b =
      let rec = loop_lines cs (buffer ++ codes "\n") [] h tt (no_begin p n) in
      rw (e, next_line_newline line, no_begin p n, split-append line (stream cs) l)
        (λ x. inr (rec.0 x), elim [ inl y ↦ cc (y, b) | inr z ↦ rec.1 z ])
  loop_lines (c ∷ cs) buffer line (inr o, h) l b =
      let longer = All-append (λ b. b ≢ b'\n') line c l o in
      let rec = loop_lines cs (buffer ++ c) (line ++ c) h longer in
      elim (Bool-cases (has_prefix (trim_space (line ++ c)) p)) [
        | inl x ↦
            rw (next_line_more line c o, x, ← append_assoc)
              (λ _. first-Begins (line ++ c) (stream cs) longer x, λ _. refl)
        | inr x ↦ rw (next_line_more line c o, x, ← append_assoc) (rec x)
      ]

-- An expect command with a pattern in double quotes, not empty, that sees the texts cs before its
-- timeout, as the reader gives them, succeeds exactly when some line of the stream, with the white
-- space at both of its ends cut, begins with the pattern.
pub handle_expect_sensitive :
    (env : Env) (p : Bytes) (cs : List Bytes) (rest : List Event) (w : World)
    → p ≢ []
    → All IsRead cs
    → w.events ≡ map recv cs ++ elapsed ∷ rest
    → ((handle_expect env (quoted b'"' p) w).0 ≡ done) ↔ Any (Begins p) (split (stream cs) b'\n')
unfolding handle_expect loop
handle_expect_sensitive env p cs rest w n h e =
    rw (parse_expect_pattern-print_pattern env.compile (case_sensitive p) tt, e)
      (loop_lines (quoted b'"' p) p rest n cs [] [] h tt (no_begin p n))

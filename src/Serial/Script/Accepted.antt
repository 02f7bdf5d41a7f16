-- ===== src/Serial/Script/Accepted.antt =====
-- What an accepted script consists of.
use mqtt_home_automation.Base.{
  ℕ, ◌+◌, ◌≡◌, ◌≢◌, refl, sym, subst, ◌∙◌, true, List, [], ◌∷◌, ◌++◌, All, All-append, Bool-cases,
  inl, inr, append-nil, drop, length,
}
use mqtt_home_automation.Base.Result.{ok, err-ne-ok, ok-injective}
use mqtt_home_automation.Text.{
  Bytes, codes, str_eq, has_prefix, trim_prefix, trim_space, trim_right, split,
}
use mqtt_home_automation.Text.Equality.{append-trim_prefix}
use mqtt_home_automation.Text.Trim.{
  trim_right-suffix, All-trim_space, All-split, trim_right-trim_space,
}
use mqtt_home_automation.Serial.Config.{Command, monitor}
use mqtt_home_automation.Serial.Script.{
  Line, send_word, expect_word, monitor_word, blank, invalid, command, read_line, read_lines,
  parse_script,
}
use mqtt_home_automation.Serial.Script.Print.{
  IsValue, IsPlain, print_script, parse_script-print_script,
}

-- A line that has been trimmed.
record IsLine (line : Bytes) : Type 0 where
  one_line : All (λ c. c ≢ b'\n') line
  ends : trim_right line ≡ line

All-suffix : (s t : Bytes) → All (λ c. c ≢ b'\n') (s ++ t) → All (λ c. c ≢ b'\n') t
All-suffix [] t h = h
All-suffix (c ∷ s) t h = All-suffix s t h.1

-- What follows a word that ends in a space is a value.
value_after :
    (word line : Bytes)
    → trim_right word ≢ word
    → IsLine line
    → has_prefix line word ≡ true
    → IsValue (trim_prefix line word)
value_after word line w h p =
    let e = append-trim_prefix line word p in
    record {
      not_empty = λ n. w (rw append-nil at (rw n at (rw e at h.ends)));
      one_line = All-suffix word _ (rw e at h.one_line);
      ends = trim_right-suffix word _ (rw e at h.ends);
    }

-- The same, as the loop cuts the word off.
value_of :
    (word line : Bytes)
    → trim_right word ≢ word
    → IsLine line
    → has_prefix line word ≡ true
    → IsValue (drop (length word) line)
unfolding trim_prefix
value_of word line w h p = rw p at (value_after word line w h p)

IsValue-monitor : (v : Bytes) → IsValue v → IsPlain (monitor v)
IsValue-monitor [] h = tt
IsValue-monitor (c ∷ v) h = h

abbrev IsPlainLine : Line → Type 0
IsPlainLine (command c) = IsPlain c
IsPlainLine _ = Unit

-- Every command that a line is read as is one that a script can say.
read_line-IsPlainLine : (line : Bytes) → IsLine line → IsPlainLine (read_line line)
unfolding read_line
read_line-IsPlainLine line l = elim (Bool-cases (str_eq line [])) [
  | inl e ↦ rw e tt
  | inr e ↦ rw e (elim (Bool-cases (has_prefix line send_word)) [
    | inl p ↦ rw p (value_of send_word line (unfold trim_right in λ x. cc) l p)
    | inr p ↦ rw p (elim (Bool-cases (has_prefix line expect_word)) [
      | inl q ↦ rw q (value_of expect_word line (unfold trim_right in λ x. cc) l q)
      | inr q ↦ rw q (elim (Bool-cases (has_prefix line monitor_word)) [
        | inl r ↦
            rw r (IsValue-monitor _ (value_of monitor_word line (unfold trim_right in λ x. cc) l r))
        | inr r ↦ rw r (elim (Bool-cases (str_eq line (codes "monitor"))) [
          | inl m ↦ rw m tt
          | inr m ↦ rw m tt
        ])
      ])
    ])
  ])
]

read_lines-IsPlain :
    (i : ℕ) (lines : List Bytes) (done cs : List Command)
    → All (All (λ c. c ≢ b'\n')) lines
    → All IsPlain done
    → read_lines i lines done ≡ ok cs
    → All IsPlain cs
unfolding read_lines
read_lines-IsPlain i [] done cs h hd e = subst (All IsPlain) (ok-injective e) hd
read_lines-IsPlain i (raw ∷ lines) done cs (hr, h) hd e =
    step (read_line (trim_space raw)) refl
      (read_line-IsPlainLine (trim_space raw)
        (record { one_line = All-trim_space _ raw hr; ends = trim_right-trim_space raw }))
      (λ d. read_lines-IsPlain (i + 1) lines d cs h)
  where
    step :
        (l : Line)
        → read_line (trim_space raw) ≡ l
        → IsPlainLine (read_line (trim_space raw))
        → ((d : List Command) → All IsPlain d → read_lines (i + 1) lines d ≡ ok cs → All IsPlain cs)
        → All IsPlain cs
    step blank r p rec = rec done hd (rw (r, read_lines) at e)
    step invalid r p rec = absurd (err-ne-ok (rw (r, read_lines) at e))
    step (command c) r p rec =
        rec (done ++ c ∷ []) (All-append IsPlain done (c ∷ []) hd (subst IsPlainLine r p, tt))
          (rw (r, read_lines) at e)

-- Every command of an accepted script is one that a script can say: it is no try command, and its
-- value is not empty (but after `monitor` alone), ends in no white space and holds no newline.
pub parse_script-IsPlain :
    (text : Bytes) (cs : List Command) → parse_script text ≡ ok cs → All IsPlain cs
unfolding parse_script
parse_script-IsPlain text cs e =
    read_lines-IsPlain 0 (split (trim_space text) b'\n') [] cs (All-split (trim_space text) b'\n')
      tt e

-- An accepted script means what the print of its commands means.
parse_script-canonical :
    (text : Bytes) (cs : List Command)
    → parse_script text ≡ ok cs
    → parse_script (print_script cs) ≡ parse_script text
parse_script-canonical text cs e =
    parse_script-print_script cs (parse_script-IsPlain text cs e) ∙ sym e

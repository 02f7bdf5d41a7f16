-- ===== src/Serial/Script/Faults.antt =====
-- Which line a refused script is refused for.
use mqtt_home_automation.Base.{
  ℕ, suc, ◌+◌, ◌≡◌, ◌≢◌, refl, List, [], ◌∷◌, ◌++◌, some, arith, All, get_elem?, take,
}
use mqtt_home_automation.Base.Result.{err}
use mqtt_home_automation.Text.{Bytes, trim_space, split}
use mqtt_home_automation.Serial.Config.{Command}
use mqtt_home_automation.Serial.Errors.{Error, invalid_command}
use mqtt_home_automation.Serial.Script.{
  Line, blank, invalid, command, read_line, read_lines, parse_script,
}

-- A line of the text that is a command or blank.
abbrev IsAccepted : Bytes → Type 0
IsAccepted raw = read_line (trim_space raw) ≢ invalid

-- The lines that a script's loop goes over.
abbrev pub lines_of : Bytes → List Bytes
lines_of text = split (trim_space text) b'\n'

-- Line n, counted from 0, is the first that is not accepted, and it reads `line` when trimmed.
pub record IsFirstFault (lines : List Bytes) (n : ℕ) (line : Bytes) : Type 0 where
  pub raw : Bytes
  pub stands : get_elem? lines n ≡ some raw
  pub trimmed : trim_space raw ≡ line
  pub refused : read_line line ≡ invalid
  pub before : All IsAccepted (take n lines)

next_fault :
    {lines : List Bytes} {n : ℕ} {line : Bytes} (raw : Bytes)
    → IsAccepted raw
    → IsFirstFault lines n line
    → IsFirstFault (raw ∷ lines) (suc n) line
next_fault raw h f = record {
  raw = f.raw;
  stands = f.stands;
  trimmed = f.trimmed;
  refused = f.refused;
  before = (h, f.before);
}

FaultFrom : ℕ → List Bytes → Error → Type 0
FaultFrom i lines e =
    (n : ℕ) × (line : Bytes) × (e ≡ invalid_command (i + n + 1) line) × IsFirstFault lines n line

later :
    (i : ℕ) (raw : Bytes) (lines : List Bytes) (e : Error)
    → IsAccepted raw
    → FaultFrom (i + 1) lines e
    → FaultFrom i (raw ∷ lines) e
unfolding FaultFrom
later i raw lines e h (n, line, eq, f) = (suc n, line, ground arith, next_fault raw h f)

read_lines_fault :
    (i : ℕ) (lines : List Bytes) (done : List Command) (e : Error)
    → read_lines i lines done ≡ err e
    → FaultFrom i lines e
unfolding read_lines FaultFrom
read_lines_fault i [] done e h = cc
read_lines_fault i (raw ∷ lines) done e h =
    step (read_line (trim_space raw)) refl (λ d. read_lines_fault (i + 1) lines d e)
  where
    step :
        (l : Line)
        → read_line (trim_space raw) ≡ l
        → ((d : List Command) → read_lines (i + 1) lines d ≡ err e → FaultFrom (i + 1) lines e)
        → FaultFrom i (raw ∷ lines) e
    step blank r rec = later i raw lines e (λ x. cc) (rec done (rw (r, read_lines) at h))
    step invalid r rec = (
      0,
      trim_space raw,
      ground arith,
      record { raw = raw; stands = refl; trimmed = refl; refused = r; before = tt },
    )
    step (command c) r rec =
        later i raw lines e (λ x. cc) (rec (done ++ c ∷ []) (rw (r, read_lines) at h))

-- A refused script is refused for its first line that is no command and not blank: the error
-- carries that line, trimmed, and its number, counted from 1 after the white space in front of the
-- script is cut.
pub parse_script_fault :
    (text : Bytes) (e : Error)
    → parse_script text ≡ err e
    → (n : ℕ) × (line : Bytes) × (e ≡ invalid_command (n + 1) line)
      × IsFirstFault (lines_of text) n line
unfolding parse_script FaultFrom
parse_script_fault text e h =
    let (n, line, eq, f) = read_lines_fault 0 (lines_of text) [] e h in (n, line, ground arith, f)

-- ===== src/Serial/Monitor/Lines.antt =====
-- The lines that a monitor command logs, against those that the reader logs.
use mqtt_home_automation.Base.{
  ℕ, ◌+◌, ◌/◌, ◌≤◌, ◌<◌, ◌≡◌, refl, sym, ◌∙◌, Bool, true, false, ◌&&◌, List, [], ◌∷◌, ◌++◌, map,
  append-nil, append_assoc, arith, All, if◌then◌else◌, ◌==◌, Bool-cases, inl, inr,
}
use mqtt_home_automation.Base.Int.{pos}
use mqtt_home_automation.Text.{str_eq}
use mqtt_home_automation.Serial.Pattern.{byte_at}
use mqtt_home_automation.Serial.Port.{recv}
use mqtt_home_automation.Serial.Port.Reader.{byte, string_of_byte, trim_line_end, read_serial}
use mqtt_home_automation.Serial.Monitor.{Watch, take_char, monitor_loop}

take_char_ascii :
    (c : ℕ) (m : Watch)
    → c < 128
    → take_char (string_of_byte c) m ≡ (
        if c == b'\n'
        then record {
          buffer = [];
          line_count = m.line_count + 1;
          lines = m.lines ++ trim_line_end (m.buffer ++ c ∷ []) ∷ [];
        }
        else record m { buffer = m.buffer ++ c ∷ [] })
unfolding take_char string_of_byte str_eq byte_at
take_char_ascii c m h = ground arith

pub and_false : (b : Bool) → (b && false) ≡ false
and_false true = refl
and_false false = refl

-- As long as all bytes from the port are ASCII, a monitor command without a limit of lines logs the
-- lines that the reader logs.
pub monitor_loop-read_serial :
    (bs : List ℕ) (m : Watch)
    → All (λ c. c < 128) bs
    → (monitor_loop (pos 0) (map recv (read_serial (map byte bs) m.buffer).0) m).2.lines
      ≡ m.lines ++ (read_serial (map byte bs) m.buffer).1
unfolding read_serial monitor_loop
monitor_loop-read_serial [] m h = sym (append-nil m.lines)
monitor_loop-read_serial (c ∷ bs) m (hc, h) =
    let line = trim_line_end (m.buffer ++ c ∷ []) in
    elim (Bool-cases (c == b'\n')) [
      | inl e ↦
          rw (and_false _, take_char_ascii c m hc, e)
            (monitor_loop-read_serial bs
                (record {
                  buffer = [];
                  line_count = m.line_count + 1;
                  lines = m.lines ++ line ∷ [];
                })
                h
              ∙ append_assoc m.lines (line ∷ []) _)
      | inr e ↦
          rw (and_false _, take_char_ascii c m hc, e)
            (monitor_loop-read_serial bs (record m { buffer = m.buffer ++ c ∷ [] }) h)
    ]

-- A monitor command cannot tell apart two bytes from the port that lie above ASCII in the same
-- quarter of the byte range.
pub take_char-string_of_byte :
    (c d : ℕ) (m : Watch)
    → 128 ≤ c
    → 128 ≤ d
    → c / 64 ≡ d / 64
    → take_char (string_of_byte c) m ≡ take_char (string_of_byte d) m
unfolding take_char string_of_byte str_eq byte_at
take_char-string_of_byte c d m hc hd e = ground arith

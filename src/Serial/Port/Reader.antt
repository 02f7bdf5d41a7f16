-- ===== src/Serial/Port/Reader.antt =====
-- readSerial of cmd/serial_expect/main.go: bytes from the port become texts on the channel.
use mqtt_home_automation.Base.{
  ℕ, ◌+◌, ◌/◌, ◌%◌, List, [], ◌∷◌, ◌++◌, ltb, ◌==◌, ◌||◌, if◌then◌else◌,
}
use mqtt_home_automation.Text.{Bytes}

-- What ReadByte returns.
pub data Read : Type 0 where
  byte : ℕ → Read
  end_of_file : Read
  read_error : Bytes → Read

-- string(char) of a byte: the UTF-8 text of the code point with that number.
unfoldable pub string_of_byte : ℕ → Bytes
string_of_byte c = if ltb c 128 then c ∷ [] else (192 + c / 64) ∷ (128 + c % 64) ∷ []

-- strings.TrimRight(s, "\r\n")
keep_line_end : ℕ → Bytes → Bytes
keep_line_end c [] = if c == b'\n' || c == b'\r' then [] else c ∷ []
keep_line_end c (d ∷ s) = c ∷ d ∷ s

unfoldable pub trim_line_end : Bytes → Bytes
unfolding keep_line_end
trim_line_end [] = []
trim_line_end (c ∷ s) = keep_line_end c (trim_line_end s)

-- The texts put on the channel and the lines logged, from the reads and what is in the buffer.
unfoldable pub read_serial : List Read → Bytes → List Bytes × List Bytes
read_serial [] buffer = ([], [])
read_serial (end_of_file ∷ reads) buffer = ([], [])
read_serial (read_error e ∷ reads) buffer = read_serial reads buffer
read_serial (byte char ∷ reads) buffer =
    let buffer' = buffer ++ char ∷ [] in
    let line_end = char == b'\n' in
    let (texts, lines) = read_serial reads (if line_end then [] else buffer') in
    (string_of_byte char ∷ texts, (if line_end then trim_line_end buffer' ∷ lines else lines))

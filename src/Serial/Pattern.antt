-- ===== src/Serial/Pattern.antt =====
-- Expect patterns and what is sent: parseExpectPattern, checkMatch, checkDryRunMatch and
-- formatSendValue of cmd/serial_expect/main.go. The package `regexp` is a parameter: `compile`
-- gives the test of a regular expression on a line.
pub mod Quotes
use mqtt_home_automation.Base.{
  ℕ, suc, ◌-◌, ◌≡◌, refl, Bool, true, false, ◌&&◌, List, [], ◌∷◌, ◌++◌, Option, none, some, length,
  get_or, take, drop, ltb, leb, ◌==◌, if◌then◌else◌,
}
use mqtt_home_automation.Base.Result.{Result, ok, err}
use mqtt_home_automation.Text.{
  Bytes, codes, has_prefix, contains, to_lower, trim_space, replace_all,
}
use mqtt_home_automation.Serial.Errors.{
  Error, pattern_too_short, invalid_pattern_format, invalid_regex,
}

-- The three match types; a compiled regular expression is its test.
pub data ExpectPattern : Type 0 where
  case_insensitive case_sensitive : Bytes → ExpectPattern
  regex : Bytes → (Bytes → Bool) → ExpectPattern

-- s[i] where i is in range
unfoldable pub byte_at : Bytes → ℕ → ℕ
byte_at s i = get_or s i 0

-- s[i:j] where the bounds are in range
unfoldable pub slice : Bytes → ℕ → ℕ → Bytes
slice s i j = take (j - i) (drop i s)

unfoldable pub format_send_value : Bytes → Bytes
unfolding replace_all
format_send_value value =
    if leb 2 (length value)
    then (let first = byte_at value 0 in
        let last = byte_at value (length value - 1) in
        let content = slice value 1 (length value - 1) in
        if first == b'\'' && last == b'\''
        then content ++ codes "\r"
        else if first == b'"' && last == b'"'
        then replace_all (replace_all content (codes "\\r") (codes "\r")) (codes "\\n") (codes "\n")
        else value)
    else value

module _ (compile : Bytes → Option (Bytes → Bool)) where
  compiled : Bytes → Option (Bytes → Bool) → Result Error ExpectPattern
  compiled content none = err invalid_regex
  compiled content (some test) = ok (regex content test)

  unfoldable pub parse_expect_pattern : Bytes → Result Error ExpectPattern
  unfolding compiled
  parse_expect_pattern pattern =
      if ltb (length pattern) 2
      then err pattern_too_short
      else let first = byte_at pattern 0 in
        let last = byte_at pattern (length pattern - 1) in
        let content = slice pattern 1 (length pattern - 1) in
        if first == b'\'' && last == b'\''
        then ok (case_insensitive content)
        else if first == b'"' && last == b'"'
        then ok (case_sensitive content)
        else if first == b'/' && last == b'/'
        then compiled content (compile content)
        else err invalid_pattern_format

-- In the stream so far, or on the line so far.
unfoldable pub check_match : ExpectPattern → Bytes → Bytes → Bool
check_match (case_insensitive p) buffer current_line = contains (to_lower buffer) (to_lower p)
check_match (case_sensitive p) buffer current_line = has_prefix (trim_space current_line) p
check_match (regex p test) buffer current_line = test current_line

unfoldable pub check_dry_run_match : ExpectPattern → Bytes → Bool
check_dry_run_match (case_insensitive p) line = contains (to_lower line) (to_lower p)
check_dry_run_match (case_sensitive p) line = has_prefix (trim_space line) p
check_dry_run_match (regex p test) line = test line

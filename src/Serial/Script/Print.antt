-- ===== src/Serial/Script/Print.antt =====
-- A printed script is read back: the commands, in their order, one to a line.
use mqtt_home_automation.Base.{
  ℕ, ◌+◌, ◌≡◌, ◌≢◌, refl, sym, ◌∙◌, List, [], ◌∷◌, ◌++◌, append-nil, append_assoc, arith, All,
  All-append,
}
use mqtt_home_automation.Base.Result.{ok}
use mqtt_home_automation.Text.{Bytes, codes, trim_space, trim_left, trim_right, split}
use mqtt_home_automation.Text.Lines.{split-append, split_one}
use mqtt_home_automation.Text.Trim.{trim_right-append}
use mqtt_home_automation.Serial.Config.{Command, send, expect, monitor, try}
use mqtt_home_automation.Serial.Script.{command, read_line, read_lines, parse_script}

-- A value that stands alone on a line: not empty, without a newline, and without white space at
-- its end.
pub record IsValue (v : Bytes) : Type 0 where
  pub not_empty : v ≢ []
  pub one_line : All (λ c. c ≢ b'\n') v
  pub ends : trim_right v ≡ v

-- What a script can say: no try command, and `monitor` alone or with a value.
abbrev pub IsPlain : Command → Type 0
IsPlain (send v) = IsValue v
IsPlain (expect v) = IsValue v
IsPlain (monitor []) = Unit
IsPlain (monitor (c ∷ v)) = IsValue (c ∷ v)
IsPlain (try name block scripts) = ⊥

-- The line of a command.
abbrev print_command : Command → Bytes
print_command (send v) = codes "send " ++ v
print_command (expect v) = codes "expect " ++ v
print_command (monitor []) = codes "monitor"
print_command (monitor (c ∷ v)) = codes "monitor " ++ c ∷ v
print_command (try name block scripts) = []

-- The lines with newlines between them.
abbrev pub print_script : List Command → Bytes
print_script [] = []
print_script (c ∷ []) = print_command c
print_script (c ∷ d ∷ cs) = print_command c ++ b'\n' ∷ print_script (d ∷ cs)

one_line-send : (v : Bytes) → IsValue v → All (λ b. b ≢ b'\n') (codes "send " ++ v)
one_line-send v h = All-append _ (codes "send ") v (omega arith) h.one_line

one_line-print_command : (c : Command) → IsPlain c → All (λ b. b ≢ b'\n') (print_command c)
one_line-print_command (send v) h = one_line-send v h
one_line-print_command (expect v) h = All-append _ (codes "expect ") v (omega arith) h.one_line
one_line-print_command (monitor []) h = omega arith
one_line-print_command (monitor (c ∷ v)) h =
    All-append _ (codes "monitor ") (c ∷ v) (omega arith) h.one_line
one_line-print_command (try _ _ _) h = absurd h

trim_right-print_command :
    (c : Command) → IsPlain c → trim_right (print_command c) ≡ print_command c
trim_right-print_command (send v) h = trim_right-append (codes "send ") v h.not_empty h.ends
trim_right-print_command (expect v) h = trim_right-append (codes "expect ") v h.not_empty h.ends
trim_right-print_command (monitor []) h = unfold trim_right in refl
trim_right-print_command (monitor (c ∷ v)) h =
    trim_right-append (codes "monitor ") (c ∷ v) h.not_empty h.ends
trim_right-print_command (try _ _ _) h = absurd h

-- No line of a command begins with white space, whatever follows it.
trim_left-print_command :
    (c : Command) (rest : Bytes)
    → IsPlain c
    → trim_left (print_command c ++ rest) ≡ print_command c ++ rest
unfolding trim_left
trim_left-print_command (send v) rest h = refl
trim_left-print_command (expect v) rest h = refl
trim_left-print_command (monitor []) rest h = refl
trim_left-print_command (monitor (c ∷ v)) rest h = refl
trim_left-print_command (try _ _ _) rest h = absurd h

trim_space-print_command :
    (c : Command) → IsPlain c → trim_space (print_command c) ≡ print_command c
unfolding trim_space
trim_space-print_command c h =
    rw (rw append-nil at (trim_left-print_command c [] h)) (trim_right-print_command c h)

read_line-print_command : (c : Command) → IsPlain c → read_line (print_command c) ≡ command c
unfolding read_line
read_line-print_command (send v) h = refl
read_line-print_command (expect v) h = refl
read_line-print_command (monitor []) h = refl
read_line-print_command (monitor (c ∷ v)) h = refl
read_line-print_command (try _ _ _) h = absurd h

-- A round of the loop on the line of a command appends it.
read_lines_step :
    (i : ℕ) (c : Command) (ls : List Bytes) (done : List Command)
    → IsPlain c
    → read_lines i (print_command c ∷ ls) done ≡ read_lines (i + 1) ls (done ++ c ∷ [])
unfolding read_lines
read_lines_step i c ls done h =
    rw (trim_space-print_command c h, read_line-print_command c h, read_lines)

read_lines-print_script :
    (cs : List Command) (i : ℕ) (done : List Command)
    → All IsPlain cs
    → read_lines i (split (print_script cs) b'\n') done ≡ ok (done ++ cs)
read_lines-print_script [] i done h = unfold read_lines split trim_space in rw append-nil
read_lines-print_script (c ∷ []) i done (hc, h) =
    rw (split_one _ (one_line-print_command c hc), read_lines_step i c [] done hc)
      (unfold read_lines in refl)
read_lines-print_script (c ∷ d ∷ cs) i done (hc, h) =
    rw (split-append _ _ (one_line-print_command c hc), read_lines_step i c _ done hc)
      (read_lines-print_script (d ∷ cs) (i + 1) (done ++ c ∷ []) h ∙ rw append_assoc)

print_command-ne-nil : (c : Command) → IsPlain c → print_command c ≢ []
print_command-ne-nil (send v) h = λ e. cc
print_command-ne-nil (expect v) h = λ e. cc
print_command-ne-nil (monitor []) h = λ e. cc
print_command-ne-nil (monitor (c ∷ v)) h = λ e. cc
print_command-ne-nil (try _ _ _) h = absurd h

print_script-ne-nil : (c : Command) (cs : List Command) → IsPlain c → print_script (c ∷ cs) ≢ []
print_script-ne-nil c [] h = print_command-ne-nil c h
print_script-ne-nil c (d ∷ cs) h = λ e. append-ne-nil (print_command c) _ e
  where
    append-ne-nil : (s : Bytes) (t : Bytes) → s ++ b'\n' ∷ t ≢ []
    append-ne-nil [] t = λ e. cc
    append-ne-nil (x ∷ s) t = λ e. cc

trim_right-print_script :
    (cs : List Command) → All IsPlain cs → trim_right (print_script cs) ≡ print_script cs
trim_right-print_script [] h = unfold trim_right in refl
trim_right-print_script (c ∷ []) (hc, h) = trim_right-print_command c hc
trim_right-print_script (c ∷ d ∷ cs) (hc, (hd, h)) =
    rw (sym (append_assoc (print_command c) (b'\n' ∷ []) (print_script (d ∷ cs)))) (
      trim_right-append (print_command c ++ b'\n' ∷ []) (print_script (d ∷ cs))
        (print_script-ne-nil d cs hd) (trim_right-print_script (d ∷ cs) (hd, h)))

trim_left-print_script :
    (cs : List Command) → All IsPlain cs → trim_left (print_script cs) ≡ print_script cs
trim_left-print_script [] h = unfold trim_left in refl
trim_left-print_script (c ∷ []) (hc, h) = rw append-nil at (trim_left-print_command c [] hc)
trim_left-print_script (c ∷ d ∷ cs) (hc, h) = trim_left-print_command c _ hc

-- A list of commands that a script can say, printed one to a line, is parsed to itself.
pub parse_script-print_script :
    (cs : List Command) → All IsPlain cs → parse_script (print_script cs) ≡ ok cs
unfolding parse_script trim_space
parse_script-print_script cs h =
    rw (trim_left-print_script cs h, trim_right-print_script cs h)
      (read_lines-print_script cs 0 [] h)

-- ===== src/Serial/Pattern/Quotes.antt =====
-- Which texts are patterns, and what a quoted value sends.
use mqtt_home_automation.Base.{
  ℕ, suc, ◌+◌, ◌-◌, ◌≡◌, refl, ap, subst, Bool, true, false, ◌&&◌, [], ◌∷◌, ◌++◌, Option, none,
  some, arith, length, length-append, get_or, take, take-append, ltb, ◌==◌, Bool-cases, inl, inr,
}
use mqtt_home_automation.Base.Result.{Result, ok, err}
use mqtt_home_automation.Text.{Bytes}
use mqtt_home_automation.Serial.Errors.{Error}
use mqtt_home_automation.Serial.Pattern.{
  ExpectPattern, case_insensitive, case_sensitive, regex, byte_at, slice, compiled,
  parse_expect_pattern,
}

-- A text between two quotes.
abbrev pub quoted : ℕ → Bytes → Bytes
quoted q s = q ∷ (s ++ q ∷ [])

abbrev pub print_pattern : ExpectPattern → Bytes
print_pattern (case_insensitive p) = quoted b'\'' p
print_pattern (case_sensitive p) = quoted b'"' p
print_pattern (regex p test) = quoted b'/' p

length-quoted : (q : ℕ) (s : Bytes) → length (quoted q s) ≡ length s + 2
length-quoted q s = omega (arith, length-append s (q ∷ []))

get_or-append : (s t : Bytes) (d : ℕ) → get_or (s ++ t) (length s) d ≡ get_or t 0 d
get_or-append [] t d = refl
get_or-append (c ∷ s) t d = get_or-append s t d

last-quoted : (q : ℕ) (s : Bytes) → byte_at (quoted q s) (length (quoted q s) - 1) ≡ q
unfolding byte_at
last-quoted q s =
    let e : length (quoted q s) - 1 ≡ suc (length s) = omega (arith, length-quoted q s) in
    rw e (get_or-append s (q ∷ []) 0)

slice-quoted : (q : ℕ) (s : Bytes) → slice (quoted q s) 1 (length (quoted q s) - 1) ≡ s
unfolding slice
slice-quoted q s =
    let e : length (quoted q s) - 1 - 1 ≡ length s = omega (arith, length-quoted q s) in
    rw e (take-append s (q ∷ []))

-- A text of two bytes or more is its first byte, what stands between, and its last byte.
unquoted :
    (c d : ℕ) (s : Bytes)
    → c
        ∷ (slice (c ∷ d ∷ s) 1 (length (c ∷ d ∷ s) - 1)
            ++ byte_at (c ∷ d ∷ s) (length (c ∷ d ∷ s) - 1) ∷ [])
      ≡ c ∷ d ∷ s
unfolding slice byte_at
unquoted c d s =
    let e : length (c ∷ d ∷ s) - 1 ≡ suc (length s) = omega arith in
    let e' : length (c ∷ d ∷ s) - 1 - 1 ≡ length s = omega arith in
    rw (e', e) (ap (λ (t : Bytes). c ∷ t) (last_split d s))
  where
    last_split :
        (d : ℕ) (s : Bytes) → take (length s) (d ∷ s) ++ get_or (d ∷ s) (length s) 0 ∷ [] ≡ d ∷ s
    last_split d [] = refl
    last_split d (c ∷ s) = ap (λ (t : Bytes). d ∷ t) (last_split c s)

first-quoted : (q : ℕ) (s : Bytes) → byte_at (quoted q s) 0 ≡ q
unfolding byte_at
first-quoted q s = refl

long-quoted : (q : ℕ) (s : Bytes) → ltb (length (quoted q s)) 2 ≡ false
long-quoted q s = ground (arith, length-quoted q s)

quoted_of :
    (q : ℕ) (s : Bytes)
    → ltb (length s) 2 ≡ false
    → (byte_at s 0 == q && byte_at s (length s - 1) == q) ≡ true
    → s ≡ quoted q (slice s 1 (length s - 1))
quoted_of q [] h b = cc
quoted_of q (c ∷ []) h b = cc
quoted_of q (c ∷ d ∷ s) h b =
    let (f, l) = both (byte_at (c ∷ d ∷ s) 0) (byte_at (c ∷ d ∷ s) (length (c ∷ d ∷ s) - 1)) q b in
    let f' : c ≡ q = unfold byte_at in f in cc (unquoted c d s, l, f')
  where
    both : (a b q : ℕ) → (a == q && b == q) ≡ true → (a ≡ q) × (b ≡ q)
    both a b q h = ground arith

module _ (compile : Bytes → Option (Bytes → Bool)) where
  -- A pattern whose regular expression, if it has one, compiles to the test that it carries.
  abbrev pub IsCompiled : ExpectPattern → Type 0
  IsCompiled (case_insensitive p) = Unit
  IsCompiled (case_sensitive p) = Unit
  IsCompiled (regex p test) = compile p ≡ some test

  -- Every pattern is read back from its print.
  pub parse_expect_pattern-print_pattern :
      (p : ExpectPattern) → IsCompiled p → parse_expect_pattern compile (print_pattern p) ≡ ok p
  unfolding parse_expect_pattern
  parse_expect_pattern-print_pattern (case_insensitive p) h =
      rw (long-quoted b'\'' p, first-quoted b'\'' p, last-quoted b'\'' p, slice-quoted b'\'' p)
  parse_expect_pattern-print_pattern (case_sensitive p) h =
      rw (long-quoted b'"' p, first-quoted b'"' p, last-quoted b'"' p, slice-quoted b'"' p)
  parse_expect_pattern-print_pattern (regex p test) h =
      rw (long-quoted b'/' p, first-quoted b'/' p, last-quoted b'/' p, slice-quoted b'/' p) (rw h)

  Reads : Bytes → Result Error ExpectPattern → Type 0
  Reads s (ok p) = (s ≡ print_pattern p) × IsCompiled p
  Reads s (err e) = Unit

  Reads-compiled :
      (s content : Bytes) (o : Option (Bytes → Bool))
      → compile content ≡ o
      → s ≡ quoted b'/' content
      → Reads s (compiled compile content o)
  unfolding Reads compiled
  Reads-compiled s content none h e = tt
  Reads-compiled s content (some test) h e = (e, h)

  Reads-parse_expect_pattern : (s : Bytes) → Reads s (parse_expect_pattern compile s)
  unfolding parse_expect_pattern Reads
  Reads-parse_expect_pattern s =
      let first = byte_at s 0 in
      let last = byte_at s (length s - 1) in
      elim (Bool-cases (ltb (length s) 2)) [
        | inl short ↦ rw short tt
        | inr long ↦ rw long (elim (Bool-cases (first == b'\'' && last == b'\'')) [
          | inl a ↦ rw a (quoted_of b'\'' s long a, tt)
          | inr a ↦ rw a (elim (Bool-cases (first == b'"' && last == b'"')) [
            | inl b ↦ rw b (quoted_of b'"' s long b, tt)
            | inr b ↦ rw b (elim (Bool-cases (first == b'/' && last == b'/')) [
              | inl c ↦ rw c (Reads-compiled s _ _ refl (quoted_of b'/' s long c))
              | inr c ↦ rw c tt
            ])
          ])
        ])
      ]

  -- Only prints of patterns are read: an accepted text is the print of what it is read as.
  pub print_pattern-parse_expect_pattern :
      (s : Bytes) (p : ExpectPattern)
      → parse_expect_pattern compile s ≡ ok p
      → (s ≡ print_pattern p) × IsCompiled p
  unfolding Reads
  print_pattern-parse_expect_pattern s p h = subst (Reads s) h (Reads-parse_expect_pattern s)

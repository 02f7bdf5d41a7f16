-- ===== src/Text/Trim.antt =====
-- Trimming and splitting, as the parsers need them.
use mqtt_home_automation.Base.{
  ℕ, ◌≡◌, ◌≢◌, refl, false, List, [], ◌∷◌, ◌++◌, arith, ◌==◌, Bool-cases, inl, inr, All,
}
use mqtt_home_automation.Text.{
  Bytes, is_space, trim_left, keep_end, trim_right, trim_space, split, push_first,
}

-- A text that begins and ends with no white space.
abbrev IsTrimmed : Bytes → Type 0
IsTrimmed s = trim_space s ≡ s

keep_end-append : (c : ℕ) (s t : Bytes) → t ≢ [] → keep_end c (s ++ t) ≡ c ∷ (s ++ t)
unfolding keep_end
keep_end-append c [] [] h = absurd (h refl)
keep_end-append c [] (d ∷ t) h = refl
keep_end-append c (d ∷ s) t h = refl

-- What stands in front of a text that is kept does not change where its end is cut.
pub trim_right-append : (s t : Bytes) → t ≢ [] → trim_right t ≡ t → trim_right (s ++ t) ≡ s ++ t
unfolding trim_right
trim_right-append [] t h e = e
trim_right-append (c ∷ s) t h e = rw (trim_right-append s t h e) (keep_end-append c s t h)

keep_end_idem : (c : ℕ) (s : Bytes) → trim_right s ≡ s → trim_right (keep_end c s) ≡ keep_end c s
unfolding trim_right
keep_end_idem c [] e = ground arith
keep_end_idem c (d ∷ s) e = rw e

trim_right_idem : (s : Bytes) → trim_right (trim_right s) ≡ trim_right s
unfolding trim_right
trim_right_idem [] = refl
trim_right_idem (c ∷ s) = keep_end_idem c (trim_right s) (trim_right_idem s)

-- The first byte of a trimmed text is not white space.
is_space-trim_left : (s : Bytes) (c : ℕ) (t : Bytes) → trim_left s ≡ c ∷ t → is_space c ≡ false
unfolding trim_left
is_space-trim_left [] c t h = cc
is_space-trim_left (d ∷ s) c t h = elim (Bool-cases (is_space d)) [
  | inl e ↦ is_space-trim_left s c t (rw e at h)
  | inr e ↦ ground arith
]

-- The end of a text whose own end is kept is kept too.
pub trim_right-suffix : (s t : Bytes) → trim_right (s ++ t) ≡ s ++ t → trim_right t ≡ t
unfolding trim_right
trim_right-suffix [] t h = h
trim_right-suffix (c ∷ s) t h = trim_right-suffix s t (uncons c (s ++ t) (trim_right (s ++ t)) h)
  where
    uncons : (c : ℕ) (s r : Bytes) → keep_end c r ≡ c ∷ s → r ≡ s
    uncons c s [] h = ground arith
    uncons c s (d ∷ r) h = ground arith

module _ {κ} (P : ℕ → Type κ) where
  All-trim_left : (s : Bytes) → All P s → All P (trim_left s)
  unfolding trim_left
  All-trim_left [] h = tt
  All-trim_left (c ∷ s) h = elim (Bool-cases (is_space c)) [
    | inl e ↦ rw e (All-trim_left s h.1)
    | inr e ↦ rw e h
  ]

  All-keep_end : (c : ℕ) (s : Bytes) → P c → All P s → All P (keep_end c s)
  unfolding keep_end
  All-keep_end c [] hc h = elim (Bool-cases (is_space c)) [
    | inl e ↦ rw e tt
    | inr e ↦ rw e (hc, tt)
  ]
  All-keep_end c (d ∷ s) hc h = (hc, h)

  All-trim_right : (s : Bytes) → All P s → All P (trim_right s)
  unfolding trim_right
  All-trim_right [] h = tt
  All-trim_right (c ∷ s) (hc, h) = All-keep_end c (trim_right s) hc (All-trim_right s h)

  pub All-trim_space : (s : Bytes) → All P s → All P (trim_space s)
  unfolding trim_space
  All-trim_space s h = All-trim_right (trim_left s) (All-trim_left s h)

pub trim_right-trim_space : (s : Bytes) → trim_right (trim_space s) ≡ trim_space s
unfolding trim_space
trim_right-trim_space s = trim_right_idem (trim_left s)

-- The parts of a split do not hold the separator.
pub All-split : (s : Bytes) (sep : ℕ) → All (All (λ c. c ≢ sep)) (split s sep)
unfolding split
All-split [] sep = (tt, tt)
All-split (c ∷ s) sep = elim (Bool-cases (c == sep)) [
  | inl e ↦ rw e (tt, All-split s sep)
  | inr e ↦ rw e (push (split s sep) (All-split s sep) (ground arith))
]
  where
    push :
        (ls : List Bytes)
        → All (All (λ b. b ≢ sep)) ls
        → c ≢ sep
        → All (All (λ b. b ≢ sep)) (push_first c ls)
    push [] h hc = ((hc, tt), tt)
    push (l ∷ ls) (hl, h) hc = ((hc, hl), h)

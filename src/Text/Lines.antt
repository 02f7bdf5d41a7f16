-- ===== src/Text/Lines.antt =====
-- The lines of a text, and how trimming meets a prefix.
use mqtt_home_automation.Base.{
  ℕ, ◌≡◌, ◌≢◌, ◌⊎◌, inl, inr, refl, true, false, List, [], ◌∷◌, ◌++◌, arith, ◌==◌, Bool-cases, All,
}
use mqtt_home_automation.Text.{
  Bytes, split, push_first, has_prefix, is_space, trim_left, keep_end, trim_right, trim_space,
}
use mqtt_home_automation.Text.Search.{has_prefix_grow}

pub split-append :
    (l s : Bytes) → All (λ c. c ≢ b'\n') l → split (l ++ b'\n' ∷ s) b'\n' ≡ l ∷ split s b'\n'
unfolding split
split-append [] s h = refl
split-append (c ∷ l) s (hc, h) = ground (arith, split-append l s h)

pub split_one : (l : Bytes) → All (λ c. c ≢ b'\n') l → split l b'\n' ≡ l ∷ []
unfolding split
split_one [] h = refl
split_one (c ∷ l) (hc, h) = ground (arith, split_one l h)

push_first-ne-nil : (c : ℕ) (ls : List Bytes) → push_first c ls ≢ []
unfolding push_first
push_first-ne-nil c [] = λ e. cc
push_first-ne-nil c (l ∷ ls) = λ e. cc

split-ne-nil : (s : Bytes) → split s b'\n' ≢ []
unfolding split
split-ne-nil [] = λ e. cc
split-ne-nil (c ∷ s) = elim (Bool-cases (c == b'\n')) [
  | inl e ↦ rw e (λ x. cc)
  | inr e ↦ rw e (push_first-ne-nil c (split s b'\n'))
]

-- The first line of a text that goes on behind a part without a newline.
pub split_first :
    (l s : Bytes)
    → All (λ c. c ≢ b'\n') l
    → (more : Bytes) × (rest : List Bytes) × (split (l ++ s) b'\n' ≡ (l ++ more) ∷ rest)
unfolding split
split_first [] s h = first (split s b'\n') (split-ne-nil s)
  where
    first : (ls : List Bytes) → ls ≢ [] → (more : Bytes) × (rest : List Bytes) × (ls ≡ more ∷ rest)
    first [] h = absurd (h refl)
    first (l ∷ ls) h = (l, ls, refl)
split_first (c ∷ l) s (hc, h) =
    let (more, rest, e) = split_first l s h in (more, rest, ground (arith, e))

-- `u` is `t` and more, unless `t` is empty.
Grows : Bytes → Bytes → Type 0
Grows t u = (t ≡ []) ⊎ ((more : Bytes) × (u ≡ t ++ more))

keep_end_end : (c : ℕ) (u : Bytes) → Grows (keep_end c []) (keep_end c u)
unfolding keep_end Grows
keep_end_end c u = elim (Bool-cases (is_space c)) [
  | inl e ↦ rw e (inl refl)
  | inr e ↦ rw e (inr (u, shown u e))
]
  where
    shown : (u : Bytes) → is_space c ≡ false → keep_end c u ≡ c ∷ u
    shown [] e = rw e
    shown (d ∷ u) e = refl

keep_end_grow : (c : ℕ) (t u : Bytes) → Grows t u → Grows (keep_end c t) (keep_end c u)
unfolding keep_end Grows
keep_end_grow c [] u h = keep_end_end c u
keep_end_grow c (d ∷ t) u (inl e) = absurd (cc e)
keep_end_grow c (d ∷ t) u (inr (more, e)) = inr (more, rw e)

-- Trimming the end of a longer text keeps what trimming the end of the text keeps.
trim_right_grow : (s m : Bytes) → Grows (trim_right s) (trim_right (s ++ m))
unfolding trim_right Grows
trim_right_grow [] m = inl refl
trim_right_grow (c ∷ s) m =
    keep_end_grow c (trim_right s) (trim_right (s ++ m)) (trim_right_grow s m)

trim_left_grow : (l m : Bytes) → (trim_left l ≡ []) ⊎ (trim_left (l ++ m) ≡ trim_left l ++ m)
unfolding trim_left
trim_left_grow [] m = inl refl
trim_left_grow (c ∷ l) m = elim (Bool-cases (is_space c)) [
  | inl e ↦ rw e (trim_left_grow l m)
  | inr e ↦ rw e (inr refl)
]

no_prefix : (p : Bytes) → p ≢ [] → has_prefix [] p ≢ true
unfolding has_prefix
no_prefix [] n = absurd (n refl)
no_prefix (c ∷ p) n = λ e. cc

Grows-has_prefix :
    (t u p : Bytes) → p ≢ [] → Grows t u → has_prefix t p ≡ true → has_prefix u p ≡ true
unfolding Grows
Grows-has_prefix t u p n (inl e) h = absurd (no_prefix p n (rw e at h))
Grows-has_prefix t u p n (inr (more, e)) h = rw e (has_prefix_grow t more p h)

-- What a trimmed text begins with, so does a longer one, trimmed.
pub trim_space_grow :
    (l m p : Bytes)
    → p ≢ []
    → has_prefix (trim_space l) p ≡ true
    → has_prefix (trim_space (l ++ m)) p ≡ true
unfolding trim_space
trim_space_grow l m p n h = elim (trim_left_grow l m) [
  | inl e ↦ absurd (no_prefix p n (unfold trim_right in (rw e at h)))
  | inr e ↦ rw e (
      Grows-has_prefix (trim_right (trim_left l)) (trim_right (trim_left l ++ m)) p n
        (trim_right_grow (trim_left l) m) h)
]

-- ===== src/Text/Equality.antt =====
-- What the tests on texts decide.
use mqtt_home_automation.Base.{
  ◌≡◌, ◌≢◌, ◌↔◌, refl, true, false, [], ◌∷◌, ◌++◌, ℕ, arith, Bool-cases, inl, inr, drop-append,
}
use mqtt_home_automation.Text.{Bytes, str_eq, has_prefix, trim_prefix}

pub str_eq_refl : (s : Bytes) → str_eq s s ≡ true
unfolding str_eq
str_eq_refl [] = refl
str_eq_refl (c ∷ s) = ground (arith, str_eq_refl s)

pub eq_of_str_eq : (s t : Bytes) → str_eq s t ≡ true → s ≡ t
unfolding str_eq
eq_of_str_eq [] [] h = refl
eq_of_str_eq [] (d ∷ t) h = cc
eq_of_str_eq (c ∷ s) [] h = cc
eq_of_str_eq (c ∷ s) (d ∷ t) h = ground (arith, eq_of_str_eq s t)

pub str_eq_iff : (s t : Bytes) → (str_eq s t ≡ true) ↔ (s ≡ t)
str_eq_iff s t = (eq_of_str_eq s t, λ e. rw e (str_eq_refl t))

pub str_eq-false : (s t : Bytes) → s ≢ t → str_eq s t ≡ false
str_eq-false s t h = elim (Bool-cases (str_eq s t)) [
  | inl e ↦ absurd (h (eq_of_str_eq s t e))
  | inr e ↦ e
]

pub has_prefix-append : (p s : Bytes) → has_prefix (p ++ s) p ≡ true
unfolding has_prefix
has_prefix-append [] s = refl
has_prefix-append (c ∷ p) s = ground (arith, has_prefix-append p s)

pub trim_prefix-append : (p s : Bytes) → trim_prefix (p ++ s) p ≡ s
unfolding trim_prefix
trim_prefix-append p s = rw (has_prefix-append p s) (drop-append p s)

-- A text with a prefix is the prefix and what trimming leaves.
pub append-trim_prefix : (s p : Bytes) → has_prefix s p ≡ true → s ≡ p ++ trim_prefix s p
unfolding has_prefix trim_prefix
append-trim_prefix s [] h = refl
append-trim_prefix [] (c ∷ p) h = cc
append-trim_prefix (d ∷ s) (c ∷ p) h = ground (arith, append-trim_prefix s p)

-- A text is not itself with more behind it.
pub longer : (s : Bytes) (c : ℕ) (t : Bytes) → s ++ c ∷ t ≢ s
longer [] c t e = cc
longer (d ∷ s) c t e = longer s c t (tail_of e)
  where
    tail_of : d ∷ (s ++ c ∷ t) ≡ d ∷ s → s ++ c ∷ t ≡ s
    tail_of h = cc

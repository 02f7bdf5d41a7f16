-- ===== src/Text/Search.antt =====
-- Searching in a growing text.
use mqtt_home_automation.Base.{◌≡◌, refl, true, [], ◌∷◌, ◌++◌, arith, ap}
use mqtt_home_automation.Text.{Bytes, has_prefix, contains, lower_byte, to_lower}

pub has_prefix_grow : (s t p : Bytes) → has_prefix s p ≡ true → has_prefix (s ++ t) p ≡ true
unfolding has_prefix
has_prefix_grow s t [] h = refl
has_prefix_grow [] t (c ∷ p) h = cc
has_prefix_grow (d ∷ s) t (c ∷ p) h = ground (arith, has_prefix_grow s t p)

contains_of_prefix : (s p : Bytes) → has_prefix s p ≡ true → contains s p ≡ true
unfolding contains
contains_of_prefix [] p h = h
contains_of_prefix (c ∷ s) p h = ground arith

-- What a text contains, a longer one contains.
pub contains_grow : (s t p : Bytes) → contains s p ≡ true → contains (s ++ t) p ≡ true
contains_grow [] t p h = contains_of_prefix t p (has_prefix_grow [] t p (unfold contains in h))
contains_grow (c ∷ s) t p h = step h (contains_grow s t p) (has_prefix_grow (c ∷ s) t p)
  where
    step :
        contains (c ∷ s) p ≡ true
        → (contains s p ≡ true → contains (s ++ t) p ≡ true)
        → (has_prefix (c ∷ s) p ≡ true → has_prefix (c ∷ s ++ t) p ≡ true)
        → contains (c ∷ s ++ t) p ≡ true
    step h f g = unfold contains in ground arith

pub to_lower-append : (s t : Bytes) → to_lower (s ++ t) ≡ to_lower s ++ to_lower t
unfolding to_lower
to_lower-append [] t = refl
to_lower-append (c ∷ s) t = ap (λ (u : Bytes). lower_byte c ∷ u) (to_lower-append s t)

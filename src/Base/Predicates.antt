-- ===== src/Base/Predicates.antt =====
-- Predicates on lists by recursion, which the tactics open.
use mathlib.Core.Logic.{◌⊎◌, inl, inr}
use mathlib.Core.Path.{◌≡◌, refl, sym, subst}
use mathlib.Core.List.{List, [], ◌∷◌, ◌++◌}

module _ {ℓ κ} {A : Type ℓ} (P : A → Type κ) where
  abbrev pub All : List A → Type κ
  All [] = Unit
  All (x ∷ xs) = P x × All xs

  pub All-append : (xs ys : List A) → All xs → All ys → All (xs ++ ys)
  All-append [] ys _ hy = hy
  All-append (x ∷ xs) ys (px, hx) hy = (px, All-append xs ys hx hy)

module _ {ℓ} {A : Type ℓ} (P : A → Type 0) where
  abbrev pub Any : List A → Type 0
  Any [] = ⊥
  Any (x ∷ xs) = P x ⊎ Any xs

  pub Any-append_left : (xs ys : List A) → Any xs → Any (xs ++ ys)
  Any-append_left [] ys a = absurd a
  Any-append_left (x ∷ xs) ys (inl p) = inl p
  Any-append_left (x ∷ xs) ys (inr a) = inr (Any-append_left xs ys a)

  pub Any-append_right : (xs ys : List A) → Any ys → Any (xs ++ ys)
  Any-append_right [] ys a = a
  Any-append_right (x ∷ xs) ys a = inr (Any-append_right xs ys a)

  pub Any-append-cases : (xs ys : List A) → Any (xs ++ ys) → Any xs ⊎ Any ys
  Any-append-cases [] ys a = inr a
  Any-append-cases (x ∷ xs) ys (inl p) = inl (inl p)
  Any-append-cases (x ∷ xs) ys (inr a) = elim (Any-append-cases xs ys a) [
    | inl b ↦ inl (inr b)
    | inr c ↦ inr c
  ]

-- A member of a list.
abbrev pub IsIn : {A : Type 0} → A → List A → Type 0
IsIn x xs = Any (λ y. y ≡ x) xs

pub Any-IsIn : {A : Type 0} (P : A → Type 0) (xs : List A) → Any P xs → (x : A) × IsIn x xs × P x
Any-IsIn P [] a = absurd a
Any-IsIn P (x ∷ xs) (inl p) = (x, inl refl, p)
Any-IsIn P (x ∷ xs) (inr a) = let (y, i, p) = Any-IsIn P xs a in (y, inr i, p)

pub IsIn-Any : {A : Type 0} (P : A → Type 0) {x : A} (xs : List A) → IsIn x xs → P x → Any P xs
IsIn-Any P [] i p = absurd i
IsIn-Any P (y ∷ xs) (inl e) p = inl (subst P (sym e) p)
IsIn-Any P (y ∷ xs) (inr i) p = inr (IsIn-Any P xs i p)

All-map :
    {A : Type 0} (P Q : A → Type 0) (xs : List A) → ((x : A) → P x → Q x) → All P xs → All Q xs
All-map P Q [] f h = tt
All-map P Q (x ∷ xs) f (p, h) = (f x p, All-map P Q xs f h)

pub all-IsIn : {A : Type 0} (xs : List A) → All (λ x. IsIn x xs) xs
all-IsIn [] = tt
all-IsIn (x ∷ xs) = (inl refl, All-map _ _ xs (λ y. inr) (all-IsIn xs))

-- ===== src/Maps.antt =====
-- Go's `map[string]V`, as an association list that holds a key at most once.
-- The list's order stands for one order of iteration among those that Go may take.
pub mod Laws
use mqtt_home_automation.Base.{
  ◌≡◌, refl, Bool, true, false, List, [], ◌∷◌, Option, none, some, if◌then◌else◌,
}
use mqtt_home_automation.Text.{Bytes, str_eq}

abbrev pub GoMap {ℓ} : Type ℓ → Type ℓ
GoMap V = List (Bytes × V)

module _ {ℓ} {V : Type ℓ} where
  -- v, ok := m[k]
  unfoldable pub lookup : Bytes → GoMap V → Option V
  lookup k [] = none
  lookup k ((j, v) ∷ m) = if str_eq j k then some v else lookup k m

  -- m[k] = v
  unfoldable pub insert : Bytes → V → GoMap V → GoMap V
  insert k v [] = (k, v) ∷ []
  insert k v ((j, w) ∷ m) = if str_eq j k then (j, v) ∷ m else (j, w) ∷ insert k v m

  -- delete(m, k)
  pub delete : Bytes → GoMap V → GoMap V
  delete k [] = []
  delete k ((j, w) ∷ m) = let rest = delete k m in if str_eq j k then rest else (j, w) ∷ rest

  -- The keys, in the order of iteration.
  unfoldable pub keys : GoMap V → List Bytes
  keys [] = []
  keys ((j, v) ∷ m) = j ∷ keys m

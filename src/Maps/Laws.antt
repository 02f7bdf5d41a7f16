-- ===== src/Maps/Laws.antt =====
-- What reading a map gives after each operation.
use mqtt_home_automation.Base.{◌≡◌, refl, [], ◌∷◌, none, some, arith, if◌then◌else◌}
use mqtt_home_automation.Text.{Bytes, str_eq}
use mqtt_home_automation.Text.Equality.{str_eq_iff, str_eq_refl}
use mqtt_home_automation.Maps.{GoMap, lookup, insert, delete}

module _ {ℓ} {V : Type ℓ} where
  pub lookup-insert :
      (k j : Bytes) (v : V) (m : GoMap V)
      → lookup j (insert k v m) ≡ (if str_eq k j then some v else lookup j m)
  unfolding lookup insert
  lookup-insert k j v [] = refl
  lookup-insert k j v ((i, w) ∷ m) =
      ground (arith, str_eq_iff k j, str_eq_iff i k, str_eq_iff i j, lookup-insert k j v m)

  pub lookup-delete :
      (k j : Bytes) (m : GoMap V)
      → lookup j (delete k m) ≡ (if str_eq k j then none else lookup j m)
  unfolding lookup delete
  lookup-delete k j [] = ground arith
  lookup-delete k j ((i, w) ∷ m) =
      ground (arith, str_eq_iff k j, str_eq_iff i k, str_eq_iff i j, lookup-delete k j m)

  pub lookup-insert_self : (k : Bytes) (v : V) (m : GoMap V) → lookup k (insert k v m) ≡ some v
  lookup-insert_self k v m = simp (lookup-insert, str_eq_refl)

pub ruleset map_laws = (lookup-insert, lookup-delete, str_eq_refl)

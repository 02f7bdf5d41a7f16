-- ===== src/Home/Spec/Members.antt =====
-- Which sockets are connected, after each change of the list that stands for the map.
use mqtt_home_automation.Base.{
  ℕ, ◌≡◌, refl, Bool, not, ◌&&◌, ◌||◌, List, [], ◌∷◌, ◌++◌, arith, ◌==◌, Bool-cases, inl, inr,
}
use mqtt_home_automation.Home.Broadcast.{remove_client}
use mqtt_home_automation.Home.Broadcast.Delivery.{keep}
use mqtt_home_automation.Home.Socket.{is_client, add_client}

pub is_client-keep :
    (c : ℕ) (p : ℕ → Bool) (cs : List ℕ) → is_client c (keep p cs) ≡ (is_client c cs && p c)
unfolding is_client
is_client-keep c p [] = refl
is_client-keep c p (d ∷ ds) = elim (Bool-cases (p d)) [
  | inl e ↦ rw e (ground (arith, is_client-keep c p ds))
  | inr e ↦ rw e (ground (arith, is_client-keep c p ds))
]

is_client-append :
    (c d : ℕ) (cs : List ℕ) → is_client d (cs ++ c ∷ []) ≡ (is_client d cs || (c == d))
unfolding is_client
is_client-append c d [] = ground arith
is_client-append c d (e ∷ cs) = ground (arith, is_client-append c d cs)

pub is_client-add_client :
    (c d : ℕ) (cs : List ℕ) → is_client d (add_client c cs) ≡ (is_client d cs || (c == d))
unfolding add_client
is_client-add_client c d cs = ground (arith, is_client-append c d cs)

pub is_client-remove_client :
    (c d : ℕ) (cs : List ℕ) → is_client d (remove_client c cs) ≡ (is_client d cs && not (c == d))
unfolding is_client remove_client
is_client-remove_client c d [] = refl
is_client-remove_client c d (e ∷ cs) = ground (arith, is_client-remove_client c d cs)

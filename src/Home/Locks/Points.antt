-- ===== src/Home/Locks/Points.antt =====
-- Goroutines at some point, found among all of them.
use mqtt_home_automation.Base.{
  ℕ, zero, suc, ◌≤◌, ◌≡◌, ◌⊎◌, refl, Bool, true, false, List, [], ◌∷◌, arith, Bool-cases, inl, inr,
}
use mqtt_home_automation.Home.Locks.{Point, outside, Moves, first, later}
use mqtt_home_automation.Home.Locks.Exclusion.{one, count, count-Moves}

-- A goroutine at a point, which may go to any other.
abbrev pub At : Point → List Point → Type 0
At p ps = (q : Point) → (qs : List Point) × Moves ps p q qs

At-later : (p r : Point) (ps : List Point) → At p ps → At p (r ∷ ps)
At-later p r ps at q = let (qs, m) = at q in (r ∷ qs, later r m)

pub found :
    (f : Point → Bool) (ps : List Point) → 1 ≤ count f ps → (p : Point) × (f p ≡ true) × At p ps
unfolding count one
found f [] h = absurd (omega arith)
found f (p ∷ ps) h = elim (Bool-cases (f p)) [
  | inl e ↦ (p, e, λ q. (q ∷ ps, first p q ps))
  | inr e ↦
      let left_over = rw e at h in
      let (x, is_x, at) = found f ps (omega (arith, left_over)) in (x, is_x, At-later x p ps at)
]

pub Moves-At : {ps qs : List Point} {p q : Point} → Moves ps p q qs → At p ps
Moves-At (first p q ps) r = (r ∷ ps, first p r ps)
Moves-At (later r m) x = let (qs, n) = Moves-At m x in (r ∷ qs, later r n)

pub count_ge :
    (f : Point → Bool) (ps : List Point) (p : Point)
    → At p ps
    → f p ≡ true
    → f outside ≡ false
    → 1 ≤ count f ps
unfolding one
count_ge f ps p at e o =
    let (qs, m) = at outside in let moved = rw (e, o) at (count-Moves f m) in omega (arith, moved)

pub suc_of : (n : ℕ) → 1 ≤ n → (k : ℕ) × (n ≡ suc k)
suc_of zero h = absurd (omega arith)
suc_of (suc k) h = (k, refl)

pub zero-cases : (n : ℕ) → (n ≡ 0) ⊎ (1 ≤ n)
zero-cases zero = inl refl
zero-cases (suc n) = inr (omega arith)

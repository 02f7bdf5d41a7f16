-- ===== src/Home/Steps/Clients.antt =====
-- Lists of connections: what keeping, adding and deleting do to them.
use mqtt_home_automation.Base.{
  ℕ, ◌≡◌, ◌≢◌, refl, sym, Bool, false, not, List, [], ◌∷◌, ◌++◌, arith, All, All-append, ◌==◌,
  Bool-cases, inl, inr,
}
use mqtt_home_automation.Home.Broadcast.{remove_client}
use mqtt_home_automation.Home.Broadcast.Delivery.{keep, Absent, IsDistinct}
use mqtt_home_automation.Home.Socket.{is_client}

-- The connected clients are all different, and none of them is closed.
abbrev pub AreOpen : List ℕ → List ℕ → Type 0
AreOpen clients closed = IsDistinct clients × All (λ c. Absent c closed) clients

Absent-keep : (p : ℕ → Bool) (c : ℕ) (cs : List ℕ) → Absent c cs → Absent c (keep p cs)
Absent-keep p c [] h = tt
Absent-keep p c (d ∷ ds) (hd, h) = elim (Bool-cases (p d)) [
  | inl e ↦ rw e (hd, Absent-keep p c ds h)
  | inr e ↦ rw e (Absent-keep p c ds h)
]

pub IsDistinct-keep : (p : ℕ → Bool) (cs : List ℕ) → IsDistinct cs → IsDistinct (keep p cs)
IsDistinct-keep p [] h = tt
IsDistinct-keep p (d ∷ ds) (hd, h) = elim (Bool-cases (p d)) [
  | inl e ↦ rw e (Absent-keep p d ds hd, IsDistinct-keep p ds h)
  | inr e ↦ rw e (IsDistinct-keep p ds h)
]

pub All-keep {κ} : (P : ℕ → Type κ) (p : ℕ → Bool) (cs : List ℕ) → All P cs → All P (keep p cs)
All-keep P p [] h = tt
All-keep P p (d ∷ ds) (hd, h) = elim (Bool-cases (p d)) [
  | inl e ↦ rw e (hd, All-keep P p ds h)
  | inr e ↦ rw e (All-keep P p ds h)
]

Absent-also :
    (d : ℕ) (gone cs : List ℕ)
    → Absent d cs
    → All (λ c. Absent c gone) cs
    → All (λ c. Absent c (d ∷ gone)) cs
Absent-also d gone [] n h = tt
Absent-also d gone (c ∷ cs) (n, ns) (hc, h) = ((λ e. n (sym e), hc), Absent-also d gone cs ns h)

-- Those that are kept and those that are not are different.
pub kept_apart :
    (p : ℕ → Bool) (cs : List ℕ)
    → IsDistinct cs
    → All (λ c. Absent c (keep (λ d. not (p d)) cs)) (keep p cs)
kept_apart p [] h = tt
kept_apart p (d ∷ ds) (hd, h) = elim (Bool-cases (p d)) [
  | inl e ↦ rw e (Absent-keep (λ x. not (p x)) d ds hd, kept_apart p ds h)
  | inr e ↦ rw e (Absent-also d _ (keep p ds) (Absent-keep p d ds hd) (kept_apart p ds h))
]

pub All-Absent-append :
    (gone more cs : List ℕ)
    → All (λ c. Absent c gone) cs
    → All (λ c. Absent c more) cs
    → All (λ c. Absent c (gone ++ more)) cs
All-Absent-append gone more [] h k = tt
All-Absent-append gone more (c ∷ cs) (hc, h) (kc, k) =
    (All-append _ gone more hc kc, All-Absent-append gone more cs h k)

-- A new connection stands behind the others.
pub IsDistinct-append :
    (c : ℕ) (cs : List ℕ) → Absent c cs → IsDistinct cs → IsDistinct (cs ++ c ∷ [])
IsDistinct-append c [] n h = (tt, tt)
IsDistinct-append c (d ∷ ds) (n, ns) (hd, h) =
    (All-append _ ds (c ∷ []) hd (λ e. n (sym e), tt), IsDistinct-append c ds ns h)

pub is_client-Absent : (c : ℕ) (cs : List ℕ) → Absent c cs → is_client c cs ≡ false
unfolding is_client
is_client-Absent c [] n = refl
is_client-Absent c (d ∷ ds) (n, ns) = ground (arith, is_client-Absent c ds ns)

-- Deleting a client leaves those that are not it.
Absent-remove_client : (b c : ℕ) (cs : List ℕ) → Absent b cs → Absent b (remove_client c cs)
unfolding remove_client
Absent-remove_client b c [] h = tt
Absent-remove_client b c (d ∷ ds) (hd, h) = elim (Bool-cases (d == c)) [
  | inl e ↦ rw e (Absent-remove_client b c ds h)
  | inr e ↦ rw e (hd, Absent-remove_client b c ds h)
]

pub remove_client-AreOpen :
    (c : ℕ) (cs closed : List ℕ)
    → AreOpen cs closed
    → AreOpen (remove_client c cs) (closed ++ c ∷ [])
unfolding remove_client
remove_client-AreOpen c [] closed h = (tt, tt)
remove_client-AreOpen c (d ∷ ds) closed ((hd, h), (od, o)) = elim (Bool-cases (d == c)) [
  | inl e ↦ rw e (remove_client-AreOpen c ds closed (h, o))
  | inr e ↦
      let r = remove_client-AreOpen c ds closed (h, o) in
      let ne : c ≢ d = ground arith in
      rw e ((Absent-remove_client d c ds hd, r.0), (All-append _ closed (c ∷ []) od (ne, tt), r.1))
]

-- ===== src/Home/Locks/Rests.antt =====
-- The goroutines at the lock of the web sockets come to rest.
use mqtt_home_automation.Base.{
  ℕ, suc, ◌+◌, ◌*◌, ◌≤◌, ◌<◌, ◌≡◌, ◌≢◌, ◌⊎◌, refl, Bool, true, false, List, [], ◌∷◌, arith, inl,
  inr, length, length-append, All,
}
use mqtt_home_automation.Home.Broadcast.{remove_client}
use mqtt_home_automation.Home.Socket.{add_client}
use mqtt_home_automation.Home.Locks.{
  of_status, of_log, Point, outside, coming, entering, waiting, looping, sending, deleting, wanting,
  pending, adding, leaving, before_greeting, greeting, System, Moves, first, later, after_greeting,
  Step, Reach, come_mutex, call_mutex, take_mutex, read_lock, send, skip, sent, failed, deleted,
  read_unlock, come, call, lock, added, left, greet, greeted, next,
}
use mqtt_home_automation.Home.Locks.Exclusion.{one, count, count-Moves, IsLocked}
use mqtt_home_automation.Home.Locks.Tallies.{IsTallied}
use mqtt_home_automation.Home.Locks.Progress.{is_new, GoesOn, Reach-GoesOn}

-- How many steps a goroutine has before it, where n connections are in the map at most.
abbrev pub steps : ℕ → Point → ℕ
steps n outside = 0
steps n (coming k) = 3 * n + 4
steps n (entering k) = 3 * n + 3
steps n (waiting k) = 3 * n + 2
steps n (looping k cs) = 3 * length cs + 1
steps n (sending k c cs) = 3 * length cs + 3
steps n (deleting k c cs) = 3 * length cs + 2
steps n (wanting b c) = 7
steps n (pending b c) = 6
steps n (adding c) = 5
steps n (leaving c) = 1
steps n (before_greeting of_status c) = 4
steps n (greeting of_status c) = 3
steps n (before_greeting of_log c) = 2
steps n (greeting of_log c) = 1

abbrev pub all_steps : ℕ → List Point → ℕ
all_steps n [] = 0
all_steps n (p ∷ ps) = steps n p + all_steps n ps

unfoldable pub adds : Point → Bool
adds (adding c) = true
adds outside = false
adds (wanting b c) = b
adds (pending b c) = b
adds (coming k) = false
adds (entering k) = false
adds (waiting k) = false
adds (looping k cs) = false
adds (sending k c cs) = false
adds (deleting k c cs) = false
adds (leaving c) = false
adds (before_greeting k c) = false
adds (greeting k c) = false

-- The connections in the map, and those about to be added.
abbrev pub room : System → ℕ
room s = length s.clients + count adds s.threads

abbrev pub steps_left : System → ℕ
steps_left s = all_steps (room s) s.threads

all_steps-Moves :
    {ps qs : List Point} {p q : Point} (n : ℕ)
    → Moves ps p q qs
    → all_steps n ps + steps n q ≡ all_steps n qs + steps n p
all_steps-Moves n (first p q ps) = omega arith
all_steps-Moves n (later r m) = let rest = all_steps-Moves n m in omega (arith, rest)

steps_le : (n m : ℕ) (p : Point) → n ≤ m → steps n p ≤ steps m p
steps_le n m outside h = omega arith
steps_le n m (coming k) h = omega (arith, h)
steps_le n m (entering k) h = omega (arith, h)
steps_le n m (wanting b c) h = omega arith
steps_le n m (pending b c) h = omega arith
steps_le n m (waiting k) h = omega (arith, h)
steps_le n m (looping k cs) h = omega arith
steps_le n m (sending k c cs) h = omega arith
steps_le n m (deleting k c cs) h = omega arith
steps_le n m (adding c) h = omega arith
steps_le n m (leaving c) h = omega arith
steps_le n m (before_greeting of_status c) h = omega arith
steps_le n m (before_greeting of_log c) h = omega arith
steps_le n m (greeting of_status c) h = omega arith
steps_le n m (greeting of_log c) h = omega arith

all_steps_le : (n m : ℕ) (ps : List Point) → n ≤ m → all_steps n ps ≤ all_steps m ps
all_steps_le n m [] h = omega arith
all_steps_le n m (p ∷ ps) h =
    let one_less = steps_le n m p h in
    let rest = all_steps_le n m ps h in omega (arith, one_less, rest)

length-remove_client_le : (c : ℕ) (cs : List ℕ) → length (remove_client c cs) ≤ length cs
unfolding remove_client
length-remove_client_le c [] = omega arith
length-remove_client_le c (d ∷ cs) = let rest = length-remove_client_le c cs in ground (arith, rest)

length-add_client_le : (c : ℕ) (cs : List ℕ) → length (add_client c cs) ≤ suc (length cs)
unfolding add_client
length-add_client_le c cs = ground (arith, length-append cs (c ∷ []))

-- A move that makes no more room and goes to a point with fewer steps.
fewer :
    {ps qs : List Point} {p q : Point} (n m : ℕ)
    → Moves ps p q qs
    → m ≤ n
    → steps n q < steps n p
    → all_steps m qs < all_steps n ps
fewer {qs = qs} n m move less h =
    let moved = all_steps-Moves n move in
    let bound = all_steps_le m n qs less in omega (arith, moved, bound, h)

goes_down :
    (s : System) (clients : List ℕ) {ts : List Point} {p q : Point}
    → Moves s.threads p q ts
    → length clients + one (adds q) ≤ length s.clients + one (adds p)
    → steps (room s) q < steps (room s) p
    → all_steps (length clients + count adds ts) ts < steps_left s
goes_down s clients {ts = ts} m space h =
    let moved = count-Moves adds m in
    fewer (room s) (length clients + count adds ts) m (omega (arith, moved, space)) h

Step-steps_left :
    {s t : System} (step : Step s t) → is_new step ≡ false → steps_left t < steps_left s
unfolding is_new adds one after_greeting
Step-steps_left (come_mutex s ts k m) e = absurd (cc e)
Step-steps_left (call_mutex s ts k f m) e = goes_down s s.clients m (omega arith) (omega arith)
Step-steps_left (take_mutex s ts k g m) e = goes_down s s.clients m (omega arith) (omega arith)
Step-steps_left (read_lock s ts k w m) e = goes_down s s.clients m (omega arith) (omega arith)
Step-steps_left (send s ts k c cs i m) e = goes_down s s.clients m (omega arith) (omega arith)
Step-steps_left (skip s ts k c cs i m) e = goes_down s s.clients m (omega arith) (omega arith)
Step-steps_left (sent s ts k c cs m) e = goes_down s s.clients m (omega arith) (omega arith)
Step-steps_left (failed s ts k c cs m) e = goes_down s s.clients m (omega arith) (omega arith)
Step-steps_left (deleted s ts k c cs m) e =
    let smaller = length-remove_client_le c s.clients in
    goes_down s (remove_client c s.clients) m (omega (arith, smaller)) (omega arith)
Step-steps_left (read_unlock s ts k n r m) e = goes_down s s.clients m (omega arith) (omega arith)
Step-steps_left (come s ts c joins m) e = absurd (cc e)
Step-steps_left (call s ts c joins w m) e = goes_down s s.clients m (omega arith) (omega arith)
Step-steps_left (lock s ts c true r m) e = goes_down s s.clients m (omega arith) (omega arith)
Step-steps_left (lock s ts c false r m) e = goes_down s s.clients m (omega arith) (omega arith)
Step-steps_left (added s ts c m) e =
    let larger = length-add_client_le c s.clients in
    goes_down s (add_client c s.clients) m (omega (arith, larger)) (omega arith)
Step-steps_left (left s ts c m) e =
    let smaller = length-remove_client_le c s.clients in
    goes_down s (remove_client c s.clients) m (omega (arith, smaller)) (omega arith)
Step-steps_left (greet s ts of_status c f m) e = goes_down s s.clients m (omega arith) (omega arith)
Step-steps_left (greet s ts of_log c f m) e = goes_down s s.clients m (omega arith) (omega arith)
Step-steps_left (greeted s ts of_status c n r m) e =
    goes_down s s.clients m (omega arith) (omega arith)
Step-steps_left (greeted s ts of_log c n r m) e =
    goes_down s s.clients m (omega arith) (omega arith)

-- So many steps, none of them the beginning of something new.
pub data Continues (start : System) : ℕ → System → Type 0 where
  stay : Continues start 0 start
  continue :
      {n : ℕ} {a b : System}
      → Continues start n a
      → (step : Step a b) → is_new step ≡ false
      → Continues start (suc n) b

Continues-steps_left : {s t : System} {n : ℕ} → Continues s n t → n + steps_left t ≤ steps_left s
Continues-steps_left stay = omega arith
Continues-steps_left (continue r step e) =
    let rest = Continues-steps_left r in
    let down = Step-steps_left step e in omega (arith, rest, down)

Continues-Reach : {start s t : System} {n : ℕ} → Reach start s → Continues s n t → Reach start t
Continues-Reach r stay = r
Continues-Reach r (continue c step e) = next (Continues-Reach r c) step

outside-cases : (p : Point) → (p ≡ outside) ⊎ (p ≢ outside)
outside-cases outside = inl refl
outside-cases (coming k) = inr (λ e. cc e)
outside-cases (entering k) = inr (λ e. cc e)
outside-cases (wanting b c) = inr (λ e. cc e)
outside-cases (pending b c) = inr (λ e. cc e)
outside-cases (waiting k) = inr (λ e. cc e)
outside-cases (looping k cs) = inr (λ e. cc e)
outside-cases (sending k c cs) = inr (λ e. cc e)
outside-cases (deleting k c cs) = inr (λ e. cc e)
outside-cases (adding c) = inr (λ e. cc e)
outside-cases (leaving c) = inr (λ e. cc e)
outside-cases (before_greeting k c) = inr (λ e. cc e)
outside-cases (greeting k c) = inr (λ e. cc e)

-- All are outside, or one of them is not.
inside-cases :
    (ps : List Point)
    → All (λ p. p ≡ outside) ps
      ⊎ ((p : Point) × (others : List Point) × Moves ps p outside others × (p ≢ outside))
inside-cases [] = inl tt
inside-cases (p ∷ ps) = elim (outside-cases p) [
  | inr ne ↦ inr (p, outside ∷ ps, first p outside ps, ne)
  | inl e ↦ elim (inside-cases ps) [
    | inl out ↦ inl (e, out)
    | inr (q, others, m, ne) ↦ inr (q, p ∷ others, later p m, ne)
  ]
]

-- As long as every write to a connection returns: in a state that the goroutines reach from one in
-- which the locks know their holders, those that are at a lock or behind it, if no new ones come, go
-- on for at most `steps_left` steps in all, in whatever order they take them; and wherever they stop,
-- all of them are outside, or one of them can go on.
pub Reach-rests :
    {start s t : System} {n : ℕ}
    → IsLocked start
    → IsTallied start
    → Reach start s
    → Continues s n t
    → (n ≤ steps_left s) × (All (λ p. p ≡ outside) t.threads ⊎ GoesOn t)
Reach-rests {t = t} locked tallied r c =
    let bound = Continues-steps_left c in
    (
      omega (arith, bound),
      elim (inside-cases t.threads) [
        | inl out ↦ inl out
        | inr (p, others, m, ne) ↦ inr (Reach-GoesOn locked tallied (Continues-Reach r c) m ne)
      ],
    )

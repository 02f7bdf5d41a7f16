-- ===== src/Home/Locks/Tallies.antt =====
-- The mutexes of the broadcasts know their holders and their readers.
use mqtt_home_automation.Base.{ℕ, suc, ◌+◌, ◌≤◌, ◌≡◌, refl, Bool, true, false, List, arith}
use mqtt_home_automation.Home.Locks.{
  Broadcast, of_status, of_log, Point, outside, coming, entering, waiting, looping, sending,
  deleting, wanting, pending, adding, leaving, before_greeting, greeting, System, Moves, set_at,
  after_greeting, Step, Reach, come_mutex, call_mutex, take_mutex, read_lock, send, skip, sent,
  failed, deleted, read_unlock, come, call, lock, added, left, greet, greeted, here, next,
}
use mqtt_home_automation.Home.Locks.Exclusion.{one, count, count-Moves}

unfoldable pub same : Broadcast → Broadcast → Bool
same of_status of_status = true
same of_status of_log = false
same of_log of_status = false
same of_log of_log = true

-- Between the lock and the unlock of the mutex of a broadcast.
unfoldable pub holds : Broadcast → Point → Bool
unfolding same
holds j outside = false
holds j (coming k) = false
holds j (entering k) = same j k
holds j (waiting k) = same j k
holds j (looping k cs) = same j k
holds j (sending k c cs) = same j k
holds j (deleting k c cs) = same j k
holds j (wanting b c) = false
holds j (pending b c) = false
holds j (adding c) = false
holds j (leaving c) = false
holds j (before_greeting k c) = false
holds j (greeting k c) = false

-- Between its RLock and its RUnlock in handleWebSocket.
unfoldable pub greets : Broadcast → Point → Bool
unfolding same
greets j outside = false
greets j (coming k) = false
greets j (entering k) = false
greets j (waiting k) = false
greets j (looping k cs) = false
greets j (sending k c cs) = false
greets j (deleting k c cs) = false
greets j (wanting b c) = false
greets j (pending b c) = false
greets j (adding c) = false
greets j (leaving c) = false
greets j (before_greeting k c) = false
greets j (greeting k c) = same j k

abbrev Tally : (Broadcast → ℕ) → (Broadcast → Point → Bool) → List Point → Type 0
Tally n f threads = (j : Broadcast) → n j ≡ count (f j) threads

-- As many goroutines as the mutexes say are at such points.
pub record IsTallied (s : System) : Type 0 where
  pub holders : Tally (λ j. one (s.held j)) holds s.threads
  pub readers : Tally s.greeters greets s.threads

Tally-Moves :
    {ps qs : List Point} {p q : Point} (n n' : Broadcast → ℕ) (f : Broadcast → Point → Bool)
    → Tally n f ps
    → Moves ps p q qs
    → ((j : Broadcast) → n' j + one (f j p) ≡ n j + one (f j q))
    → Tally n' f qs
Tally-Moves n n' f t m e j = let moved = count-Moves (f j) m in omega (arith, t j, e j, moved)

taken :
    (k : Broadcast) (held : Broadcast → Bool)
    → held k ≡ false
    → (j : Broadcast) → one (set_at k true held j) + one false ≡ one (held j) + one (same j k)
unfolding one set_at same
taken of_status held h of_status = rw h (omega arith)
taken of_status held h of_log = refl
taken of_log held h of_status = refl
taken of_log held h of_log = rw h (omega arith)

given :
    (k : Broadcast) (held : Broadcast → Bool)
    → held k ≡ true
    → (j : Broadcast) → one (set_at k false held j) + one (same j k) ≡ one (held j) + one false
unfolding one set_at same
given of_status held h of_status = rw h (omega arith)
given of_status held h of_log = refl
given of_log held h of_status = refl
given of_log held h of_log = rw h (omega arith)

counted :
    (k : Broadcast) (n : ℕ) (f : Broadcast → ℕ)
    → f k ≡ n
    → (j : Broadcast) → set_at k (suc n) f j + one false ≡ f j + one (same j k)
unfolding one set_at same
counted of_status n f h of_status = omega (arith, h)
counted of_status n f h of_log = refl
counted of_log n f h of_status = refl
counted of_log n f h of_log = omega (arith, h)

uncounted :
    (k : Broadcast) (n : ℕ) (f : Broadcast → ℕ)
    → f k ≡ suc n
    → (j : Broadcast) → set_at k n f j + one (same j k) ≡ f j + one false
unfolding one set_at same
uncounted of_status n f h of_status = omega (arith, h)
uncounted of_status n f h of_log = refl
uncounted of_log n f h of_status = refl
uncounted of_log n f h of_log = omega (arith, h)

abbrev held_count : (Broadcast → Bool) → Broadcast → ℕ
held_count held j = one (held j)

-- A move that changes no mutex.
moved-IsTallied :
    (s : System) (readers : ℕ) (writer : Bool) (clients : List ℕ) {ts : List Point} {p q : Point}
    → IsTallied s
    → Moves s.threads p q ts
    → ((j : Broadcast) → holds j p ≡ holds j q)
    → ((j : Broadcast) → greets j p ≡ greets j q)
    → IsTallied (record s { clients = clients; readers = readers; writer = writer; threads = ts })
moved-IsTallied s readers writer clients h m eh eg = record {
  holders =
      Tally-Moves (held_count s.held) (held_count s.held) holds h.holders m (λ j. rw (eh j) refl);
  readers = Tally-Moves s.greeters s.greeters greets h.readers m (λ j. rw (eg j) refl);
}

-- A move into or out of the mutex of a broadcast, or of its readers.
changed-IsTallied :
    (s : System) (readers : ℕ) (held : Broadcast → Bool) (greeters : Broadcast → ℕ)
    {ts : List Point} {p q : Point}
    → IsTallied s
    → Moves s.threads p q ts
    → ((j : Broadcast) → one (held j) + one (holds j p) ≡ one (s.held j) + one (holds j q))
    → ((j : Broadcast) → greeters j + one (greets j p) ≡ s.greeters j + one (greets j q))
    → IsTallied (record s { readers = readers; held = held; greeters = greeters; threads = ts })
changed-IsTallied s readers held greeters h m eh eg = record {
  holders = Tally-Moves (held_count s.held) (held_count held) holds h.holders m eh;
  readers = Tally-Moves s.greeters greeters greets h.readers m eg;
}

one-ge : (b : Bool) → 1 ≤ one b → b ≡ true
unfolding one
one-ge true h = refl
one-ge false h = absurd (omega arith)

-- A mutex is held when a goroutine is where one holds it.
pub holds-held :
    (s : System) {p q : Point} {ts : List Point} (k : Broadcast)
    → IsTallied s
    → Moves s.threads p q ts
    → holds k p ≡ true
    → holds k q ≡ false
    → s.held k ≡ true
unfolding one
holds-held s k h m e f =
    let moved = rw (e, f) at (count-Moves (holds k) m) in
    let tally = h.holders k in one-ge (s.held k) (omega (arith, moved, tally))

pub same_refl : (k : Broadcast) → same k k ≡ true
unfolding same
same_refl of_status = refl
same_refl of_log = refl

pub Step-IsTallied : {s t : System} → Step s t → IsTallied s → IsTallied t
unfolding holds greets after_greeting
Step-IsTallied (come_mutex s ts k m) h =
    moved-IsTallied s s.readers s.writer s.clients h m (λ j. refl) (λ j. refl)
Step-IsTallied (take_mutex s ts k g m) h =
    moved-IsTallied s s.readers s.writer s.clients h m (λ j. refl) (λ j. refl)
Step-IsTallied (call_mutex s ts k f m) h =
    changed-IsTallied s s.readers (set_at k true s.held) s.greeters h m (taken k s.held f)
      (λ j. refl)
Step-IsTallied (read_lock s ts k w m) h =
    moved-IsTallied s (suc s.readers) s.writer s.clients h m (λ j. refl) (λ j. refl)
Step-IsTallied (send s ts k c cs i m) h =
    moved-IsTallied s s.readers s.writer s.clients h m (λ j. refl) (λ j. refl)
Step-IsTallied (skip s ts k c cs i m) h =
    moved-IsTallied s s.readers s.writer s.clients h m (λ j. refl) (λ j. refl)
Step-IsTallied (sent s ts k c cs m) h =
    moved-IsTallied s s.readers s.writer s.clients h m (λ j. refl) (λ j. refl)
Step-IsTallied (failed s ts k c cs m) h =
    moved-IsTallied s s.readers s.writer s.clients h m (λ j. refl) (λ j. refl)
Step-IsTallied (deleted s ts k c cs m) h =
    moved-IsTallied s s.readers s.writer _ h m (λ j. refl) (λ j. refl)
Step-IsTallied (read_unlock s ts k n e m) h =
    changed-IsTallied s n (set_at k false s.held) s.greeters h m
      (given k s.held (holds-held s k h m (same_refl k) refl)) (λ j. refl)
Step-IsTallied (come s ts c joins m) h =
    moved-IsTallied s s.readers s.writer s.clients h m (λ j. refl) (λ j. refl)
Step-IsTallied (call s ts c joins w m) h =
    moved-IsTallied s s.readers true s.clients h m (λ j. refl) (λ j. refl)
Step-IsTallied (lock s ts c true e m) h =
    moved-IsTallied s s.readers s.writer s.clients h m (λ j. refl) (λ j. refl)
Step-IsTallied (lock s ts c false e m) h =
    moved-IsTallied s s.readers s.writer s.clients h m (λ j. refl) (λ j. refl)
Step-IsTallied (added s ts c m) h = moved-IsTallied s s.readers false _ h m (λ j. refl) (λ j. refl)
Step-IsTallied (left s ts c m) h = moved-IsTallied s s.readers false _ h m (λ j. refl) (λ j. refl)
Step-IsTallied (greet s ts k c f m) h =
    changed-IsTallied s s.readers s.held _ h m (λ j. refl)
      (counted k (s.greeters k) s.greeters refl)
Step-IsTallied (greeted s ts of_status c n e m) h =
    changed-IsTallied s s.readers s.held _ h m (λ j. refl) (uncounted of_status n s.greeters e)
Step-IsTallied (greeted s ts of_log c n e m) h =
    changed-IsTallied s s.readers s.held _ h m (λ j. refl) (uncounted of_log n s.greeters e)

pub Reach-IsTallied : {start s : System} → IsTallied start → Reach start s → IsTallied s
Reach-IsTallied h here = h
Reach-IsTallied h (next r s) = Step-IsTallied s (Reach-IsTallied h r)

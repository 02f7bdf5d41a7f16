-- ===== src/Home/Locks/Exclusion.antt =====
-- A goroutine of handleWebSocket has the map of web sockets for itself.
use mqtt_home_automation.Base.{
  ℕ, suc, ◌+◌, ◌≤◌, ◌≡◌, refl, Bool, true, false, List, [], ◌∷◌, arith, if◌then◌else◌, All,
}
use mqtt_home_automation.Home.Locks.{
  Point, outside, coming, entering, waiting, looping, sending, deleting, wanting, pending, adding,
  leaving, before_greeting, greeting, System, Moves, first, later, Step, Reach, come_mutex,
  call_mutex, take_mutex, read_lock, send, skip, sent, failed, deleted, read_unlock, come, call,
  lock, added, left, greet, greeted, of_status, of_log, after_greeting, here, next, reads, writes,
  announces,
}

unfoldable pub one : Bool → ℕ
one b = if b then 1 else 0

-- How many goroutines are at such points.
unfoldable pub count : (Point → Bool) → List Point → ℕ
unfolding one
count f [] = 0
count f (p ∷ ps) = one (f p) + count f ps

pub count-Moves :
    {ps qs : List Point} {p q : Point} (f : Point → Bool)
    → Moves ps p q qs
    → count f ps + one (f q) ≡ count f qs + one (f p)
unfolding count
count-Moves f (first p q ps) = omega arith
count-Moves f (later r m) = let rest = count-Moves f m in omega (arith, rest)

-- Who is in the section of a writer has called for it.
writes-announces : (p : Point) → one (writes p) ≤ one (announces p)
unfolding one writes announces
writes-announces outside = omega arith
writes-announces (coming k) = omega arith
writes-announces (entering k) = omega arith
writes-announces (waiting k) = omega arith
writes-announces (looping k cs) = omega arith
writes-announces (sending k c cs) = omega arith
writes-announces (deleting k c cs) = omega arith
writes-announces (wanting b c) = omega arith
writes-announces (pending b c) = omega arith
writes-announces (adding c) = omega arith
writes-announces (leaving c) = omega arith
writes-announces (before_greeting k c) = omega arith
writes-announces (greeting k c) = omega arith

count-writes_le : (ps : List Point) → count writes ps ≤ count announces ps
unfolding count
count-writes_le [] = omega arith
count-writes_le (p ∷ ps) =
    let here_le = writes-announces p in
    let rest = count-writes_le ps in omega (arith, here_le, rest)

-- The lock knows its holders, and a writer in its section holds it alone.
pub record Holds (readers : ℕ) (writer : Bool) (threads : List Point) : Type 0 where
  pub all_readers : readers ≡ count reads threads
  pub all_writers : one writer ≡ count announces threads
  pub alone : 1 ≤ count writes threads → readers ≡ 0

abbrev pub IsLocked : System → Type 0
IsLocked s = Holds s.readers s.writer s.threads

Holds-Moves :
    {r : ℕ} {w : Bool} {ps qs : List Point} {p q : Point} (r' : ℕ) (w' : Bool)
    → Holds r w ps
    → Moves ps p q qs
    → r' + one (reads p) ≡ r + one (reads q)
    → one w' + one (announces p) ≡ one w + one (announces q)
    → (1 ≤ count writes qs → r' ≡ 0)
    → Holds r' w' qs
Holds-Moves r' w' h m er ew a =
    let readers = h.all_readers in
    let writers = h.all_writers in
    let cr = count-Moves reads m in
    let cw = count-Moves announces m in
    record {
      all_readers = omega (arith, readers, cr, er);
      all_writers = omega (arith, writers, cw, ew);
      alone = a;
    }

-- A move that brings no goroutine into the section of a writer, and changes no readers.
stays-alone :
    {r : ℕ} {w : Bool} {ps qs : List Point} {p q : Point}
    → Holds r w ps
    → Moves ps p q qs
    → one (writes q) ≤ one (writes p)
    → 1 ≤ count writes qs
    → r ≡ 0
stays-alone h m e x = let moved = count-Moves writes m in h.alone (omega (arith, moved, e, x))

-- A goroutine that has called for the section of a writer holds the lock.
announces-held :
    {r : ℕ} {w : Bool} {ps qs : List Point} {p q : Point}
    → Holds r w ps
    → Moves ps p q qs
    → announces p ≡ true
    → announces q ≡ false
    → w ≡ true
unfolding one announces
announces-held {w = true} h m e f = refl
announces-held {w = false} h m e f =
    let c = rw (e, f) at (count-Moves announces m) in
    let held = h.all_writers in absurd (omega (arith, c, held))

-- No writer has called, so none is in its section.
no_writer :
    {r : ℕ} {w : Bool} {ps qs : List Point} {p q : Point}
    → Holds r w ps
    → Moves ps p q qs
    → w ≡ false
    → one (writes q) ≤ one (writes p)
    → 1 ≤ count writes qs
    → ⊥
unfolding one
no_writer {ps = ps} h m e f x =
    let moved = count-Moves writes m in
    let bound = count-writes_le ps in
    let none_called = rw e at h.all_writers in omega (arith, moved, bound, none_called, f, x)

-- Who unlocks as a reader has been one.
no_reader :
    {r n : ℕ} {w : Bool} {ps qs : List Point} {p q : Point}
    → Holds r w ps
    → Moves ps p q qs
    → r ≡ suc n
    → one (writes q) ≤ one (writes p)
    → 1 ≤ count writes qs
    → ⊥
no_reader h m e f x = let zero_readers = stays-alone h m f x in omega (arith, zero_readers, e)

Step-IsLocked : {s t : System} → Step s t → IsLocked s → IsLocked t
unfolding one reads writes announces after_greeting
Step-IsLocked (come_mutex s ts k m) h =
    Holds-Moves _ _ h m refl refl (stays-alone h m (omega arith))
Step-IsLocked (call_mutex s ts k f m) h =
    Holds-Moves _ _ h m refl refl (stays-alone h m (omega arith))
Step-IsLocked (take_mutex s ts k g m) h =
    Holds-Moves _ _ h m refl refl (stays-alone h m (omega arith))
Step-IsLocked (read_lock s ts k w m) h =
    Holds-Moves _ _ h m (omega arith) refl (λ x. absurd (no_writer h m w (omega arith) x))
Step-IsLocked (send s ts k c cs i m) h =
    Holds-Moves _ _ h m refl refl (stays-alone h m (omega arith))
Step-IsLocked (skip s ts k c cs i m) h =
    Holds-Moves _ _ h m refl refl (stays-alone h m (omega arith))
Step-IsLocked (sent s ts k c cs m) h = Holds-Moves _ _ h m refl refl (stays-alone h m (omega arith))
Step-IsLocked (failed s ts k c cs m) h =
    Holds-Moves _ _ h m refl refl (stays-alone h m (omega arith))
Step-IsLocked (deleted s ts k c cs m) h =
    Holds-Moves _ _ h m refl refl (stays-alone h m (omega arith))
Step-IsLocked (read_unlock s ts k n e m) h =
    Holds-Moves _ _ h m (omega (arith, e)) refl (λ x. absurd (no_reader h m e (omega arith) x))
Step-IsLocked (come s ts c joins m) h =
    Holds-Moves _ _ h m refl refl (stays-alone h m (omega arith))
Step-IsLocked (call s ts c joins w m) h =
    Holds-Moves _ _ h m refl (rw w refl) (stays-alone h m (omega arith))
Step-IsLocked (lock s ts c true e m) h = Holds-Moves _ _ h m refl refl (λ x. e)
Step-IsLocked (lock s ts c false e m) h = Holds-Moves _ _ h m refl refl (λ x. e)
Step-IsLocked (added s ts c m) h =
    Holds-Moves _ _ h m refl (rw (announces-held h m refl refl) refl)
      (stays-alone h m (omega arith))
Step-IsLocked (left s ts c m) h =
    Holds-Moves _ _ h m refl (rw (announces-held h m refl refl) refl)
      (stays-alone h m (omega arith))
Step-IsLocked (greet s ts k c f m) h = Holds-Moves _ _ h m refl refl (stays-alone h m (omega arith))
Step-IsLocked (greeted s ts of_status c n e m) h =
    Holds-Moves _ _ h m refl refl (stays-alone h m (omega arith))
Step-IsLocked (greeted s ts of_log c n e m) h =
    Holds-Moves _ _ h m refl refl (stays-alone h m (omega arith))

pub Reach-IsLocked : {start s : System} → IsLocked start → Reach start s → IsLocked s
Reach-IsLocked h here = h
Reach-IsLocked h (next r s) = Step-IsLocked s (Reach-IsLocked h r)

-- In no section.
abbrev pub IsOut : Point → Type 0
IsOut p = (reads p ≡ false) × (writes p ≡ false)

one-zero : (b : Bool) → one b ≡ 0 → b ≡ false
unfolding one
one-zero true h = absurd (omega (arith, h))
one-zero false h = refl

one_le : (b : Bool) → one b ≤ 1
unfolding one
one_le true = omega arith
one_le false = omega arith

count_none : (ps : List Point) → count reads ps ≡ 0 → count writes ps ≡ 0 → All IsOut ps
unfolding count
count_none [] r w = tt
count_none (p ∷ ps) r w = (
  (one-zero (reads p) (omega arith), one-zero (writes p) (omega arith)),
  count_none ps (omega arith) (omega arith),
)

-- Whatever the goroutines do, in whatever order: when one of them is about to add its connection to
-- the map, or to delete it, under the lock, all others are in no section of the lock, neither as
-- readers nor as writers. Here `others` are the goroutines with that one put outside.
pub Reach-alone :
    {start s : System} {p : Point} {others : List Point}
    → IsLocked start
    → Reach start s
    → Moves s.threads p outside others
    → writes p ≡ true
    → All IsOut others
unfolding one reads writes
Reach-alone {s = s} {others = others} h r m e =
    let locked = Reach-IsLocked h r in
    let moved_readers = count-Moves reads m in
    let moved_writers = rw e at (count-Moves writes m) in
    let one_at_most = one_le s.writer in
    let called = locked.all_writers in
    let bound = count-writes_le s.threads in
    let no_readers = locked.alone (omega (arith, moved_writers)) in
    let readers = locked.all_readers in
    count_none others (omega (arith, no_readers, readers, moved_readers))
      (omega (arith, one_at_most, called, bound, moved_writers))

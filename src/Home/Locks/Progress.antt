-- ===== src/Home/Locks/Progress.antt =====
-- No goroutine at the lock of the web sockets waits for ever on the others.
use mqtt_home_automation.Base.{
  ◌≡◌, ◌≢◌, refl, Bool, true, false, List, [], ◌∷◌, arith, Bool-cases, inl, inr, if◌then◌else◌,
}
use mqtt_home_automation.Home.Socket.{is_client}
use mqtt_home_automation.Home.Locks.{
  Broadcast, of_status, Point, outside, coming, entering, waiting, looping, sending, deleting,
  wanting, pending, adding, leaving, before_greeting, greeting, System, Moves, after_greeting, Step,
  Reach, come_mutex, call_mutex, take_mutex, read_lock, send, skip, sent, failed, deleted,
  read_unlock, come, call, lock, added, left, greet, greeted, reads, announces,
}
use mqtt_home_automation.Home.Locks.Exclusion.{one, IsLocked, Reach-IsLocked}
use mqtt_home_automation.Home.Locks.Tallies.{same_refl, holds, greets, IsTallied, Reach-IsTallied}
use mqtt_home_automation.Home.Locks.Points.{At, found, Moves-At, count_ge, suc_of, zero-cases}

-- A goroutine comes to one of the locks from outside.
unfoldable pub is_new : {s t : System} → Step s t → Bool
is_new (come_mutex s ts k m) = true
is_new (call_mutex s ts k f m) = false
is_new (take_mutex s ts k g m) = false
is_new (read_lock s ts k w m) = false
is_new (send s ts k c cs i m) = false
is_new (skip s ts k c cs i m) = false
is_new (sent s ts k c cs m) = false
is_new (failed s ts k c cs m) = false
is_new (deleted s ts k c cs m) = false
is_new (read_unlock s ts k n e m) = false
is_new (come s ts c joins m) = true
is_new (call s ts c joins w m) = false
is_new (lock s ts c joins e m) = false
is_new (added s ts c m) = false
is_new (left s ts c m) = false
is_new (greet s ts k c f m) = false
is_new (greeted s ts k c n e m) = false

-- One of the goroutines that are not outside can go on.
pub record GoesOn (s : System) : Type 0 where
  pub after : System
  pub step : Step s after
  pub old : is_new step ≡ false

module _ (s : System) (locked : IsLocked s) (tallied : IsTallied s) where
  reader-GoesOn : (p : Point) → reads p ≡ true → At p s.threads → GoesOn s
  unfolding reads is_new
  reader-GoesOn outside e at = absurd (cc e)
  reader-GoesOn (coming k) e at = absurd (cc e)
  reader-GoesOn (entering k) e at = absurd (cc e)
  reader-GoesOn (waiting k) e at = absurd (cc e)
  reader-GoesOn (looping k []) e at =
      let (n, is_suc) =
        suc_of s.readers
          (rw locked.all_readers (count_ge reads s.threads (looping k []) at refl refl)) in
      let (ts, m) = at outside in
      record { after = _; step = read_unlock s ts k n is_suc m; old = refl }
  reader-GoesOn (looping k (c ∷ cs)) e at = elim (Bool-cases (is_client c s.clients)) [
    | inl i ↦
        let (ts, m) = at (sending k c cs) in
        record { after = _; step = send s ts k c cs i m; old = refl }
    | inr i ↦
        let (ts, m) = at (looping k cs) in
        record { after = _; step = skip s ts k c cs i m; old = refl }
  ]
  reader-GoesOn (sending k c cs) e at =
      let (ts, m) = at (looping k cs) in record { after = _; step = sent s ts k c cs m; old = refl }
  reader-GoesOn (deleting k c cs) e at =
      let (ts, m) = at (looping k cs) in
      record { after = _; step = deleted s ts k c cs m; old = refl }
  reader-GoesOn (wanting b c) e at = absurd (cc e)
  reader-GoesOn (pending b c) e at = absurd (cc e)
  reader-GoesOn (adding c) e at = absurd (cc e)
  reader-GoesOn (leaving c) e at = absurd (cc e)
  reader-GoesOn (before_greeting k c) e at = absurd (cc e)
  reader-GoesOn (greeting k c) e at = absurd (cc e)

  writer-GoesOn : (p : Point) → announces p ≡ true → At p s.threads → GoesOn s
  unfolding announces is_new reads
  writer-GoesOn outside e at = absurd (cc e)
  writer-GoesOn (coming k) e at = absurd (cc e)
  writer-GoesOn (entering k) e at = absurd (cc e)
  writer-GoesOn (waiting k) e at = absurd (cc e)
  writer-GoesOn (looping k cs) e at = absurd (cc e)
  writer-GoesOn (sending k c cs) e at = absurd (cc e)
  writer-GoesOn (deleting k c cs) e at = absurd (cc e)
  writer-GoesOn (wanting b c) e at = absurd (cc e)
  writer-GoesOn (pending b c) e at = elim (zero-cases s.readers) [
    | inl none ↦
        let (ts, m) = at (if b then adding c else leaving c) in
        record { after = _; step = lock s ts c b none m; old = refl }
    | inr some_there ↦
        let (p, is_reader, at_p) = found reads s.threads (rw (← locked.all_readers) some_there) in
        reader-GoesOn p is_reader at_p
  ]
  writer-GoesOn (adding c) e at =
      let (ts, m) = at (before_greeting of_status c) in
      record { after = _; step = added s ts c m; old = refl }
  writer-GoesOn (leaving c) e at =
      let (ts, m) = at outside in record { after = _; step = left s ts c m; old = refl }
  writer-GoesOn (before_greeting k c) e at = absurd (cc e)
  writer-GoesOn (greeting k c) e at = absurd (cc e)

  -- Who waits for RLock waits for a writer, and that one goes on.
  waiting-GoesOn : (k : Broadcast) → At (waiting k) s.threads → GoesOn s
  unfolding is_new one
  waiting-GoesOn k at = elim (Bool-cases s.writer) [
    | inl w ↦
        let (p, e, at_p) = found announces s.threads (rw (← locked.all_writers, w) (omega arith)) in
        writer-GoesOn p e at_p
    | inr w ↦
        let (ts, m) = at (looping k s.clients) in
        record { after = _; step = read_lock s ts k w m; old = refl }
  ]

  greeting-GoesOn : (p : Point) (k : Broadcast) → greets k p ≡ true → At p s.threads → GoesOn s
  unfolding greets is_new
  greeting-GoesOn outside j e at = absurd (cc e)
  greeting-GoesOn (coming k) j e at = absurd (cc e)
  greeting-GoesOn (entering k) j e at = absurd (cc e)
  greeting-GoesOn (waiting k) j e at = absurd (cc e)
  greeting-GoesOn (looping k cs) j e at = absurd (cc e)
  greeting-GoesOn (sending k c cs) j e at = absurd (cc e)
  greeting-GoesOn (deleting k c cs) j e at = absurd (cc e)
  greeting-GoesOn (wanting b c) j e at = absurd (cc e)
  greeting-GoesOn (pending b c) j e at = absurd (cc e)
  greeting-GoesOn (adding c) j e at = absurd (cc e)
  greeting-GoesOn (leaving c) j e at = absurd (cc e)
  greeting-GoesOn (before_greeting k c) j e at = absurd (cc e)
  greeting-GoesOn (greeting k c) j e at =
      let (n, is_suc) = suc_of (s.greeters k) (
        rw (tallied.readers k)
          (count_ge (greets k) s.threads (greeting k c) at (same_refl k) refl)) in
      let (ts, m) = at (after_greeting k c) in
      record { after = _; step = greeted s ts k c n is_suc m; old = refl }

  -- Who waits for the readers of the mutex of a broadcast goes on, or one of these does.
  entering-GoesOn : (k : Broadcast) → At (entering k) s.threads → GoesOn s
  unfolding is_new
  entering-GoesOn k at = elim (zero-cases (s.greeters k)) [
    | inl none ↦
        let (ts, m) = at (waiting k) in
        record { after = _; step = take_mutex s ts k none m; old = refl }
    | inr some_there ↦
        let (p, is_greeter, at_p) =
          found (greets k) s.threads (rw (← tallied.readers k) some_there) in
        greeting-GoesOn p k is_greeter at_p
  ]

  -- Who holds the mutex of a broadcast goes on, or one that it waits for.
  holder-GoesOn : (j : Broadcast) (p : Point) → holds j p ≡ true → At p s.threads → GoesOn s
  unfolding holds reads
  holder-GoesOn j outside e at = absurd (cc e)
  holder-GoesOn j (coming k) e at = absurd (cc e)
  holder-GoesOn j (entering k) e at = entering-GoesOn k at
  holder-GoesOn j (waiting k) e at = waiting-GoesOn k at
  holder-GoesOn j (looping k cs) e at = reader-GoesOn (looping k cs) refl at
  holder-GoesOn j (sending k c cs) e at = reader-GoesOn (sending k c cs) refl at
  holder-GoesOn j (deleting k c cs) e at = reader-GoesOn (deleting k c cs) refl at
  holder-GoesOn j (wanting b c) e at = absurd (cc e)
  holder-GoesOn j (pending b c) e at = absurd (cc e)
  holder-GoesOn j (adding c) e at = absurd (cc e)
  holder-GoesOn j (leaving c) e at = absurd (cc e)
  holder-GoesOn j (before_greeting k c) e at = absurd (cc e)
  holder-GoesOn j (greeting k c) e at = absurd (cc e)

  -- Someone holds the mutex, and goes on.
  held-GoesOn : (k : Broadcast) → s.held k ≡ true → GoesOn s
  unfolding one
  held-GoesOn k h =
      let (p, e, at_p) = found (holds k) s.threads (rw (← tallied.holders k, h) (omega arith)) in
      holder-GoesOn k p e at_p

  -- A writer has called for the lock, and goes on.
  written-GoesOn : s.writer ≡ true → GoesOn s
  unfolding one
  written-GoesOn w =
      let (p, e, at_p) = found announces s.threads (rw (← locked.all_writers, w) (omega arith)) in
      writer-GoesOn p e at_p

  point-GoesOn : (p : Point) → p ≢ outside → At p s.threads → GoesOn s
  unfolding reads announces is_new greets
  point-GoesOn outside ne at = absurd (ne refl)
  point-GoesOn (coming k) ne at = elim (Bool-cases (s.held k)) [
    | inl h ↦ held-GoesOn k h
    | inr f ↦
        let (ts, m) = at (entering k) in
        record { after = _; step = call_mutex s ts k f m; old = refl }
  ]
  point-GoesOn (entering k) ne at = entering-GoesOn k at
  point-GoesOn (wanting b c) ne at = elim (Bool-cases s.writer) [
    | inl w ↦ written-GoesOn w
    | inr w ↦
        let (ts, m) = at (pending b c) in record { after = _; step = call s ts c b w m; old = refl }
  ]
  point-GoesOn (pending b c) ne at = writer-GoesOn (pending b c) refl at
  point-GoesOn (waiting k) ne at = waiting-GoesOn k at
  point-GoesOn (looping k cs) ne at = reader-GoesOn (looping k cs) refl at
  point-GoesOn (sending k c cs) ne at = reader-GoesOn (sending k c cs) refl at
  point-GoesOn (deleting k c cs) ne at = reader-GoesOn (deleting k c cs) refl at
  point-GoesOn (adding c) ne at = writer-GoesOn (adding c) refl at
  point-GoesOn (leaving c) ne at = writer-GoesOn (leaving c) refl at
  point-GoesOn (before_greeting k c) ne at = elim (Bool-cases (s.held k)) [
    | inl h ↦ held-GoesOn k h
    | inr f ↦
        let (ts, m) = at (greeting k c) in
        record { after = _; step = greet s ts k c f m; old = refl }
  ]
  point-GoesOn (greeting k c) ne at = greeting-GoesOn (greeting k c) k (same_refl k) at

-- As long as every write to a connection returns, no goroutine waits for ever: from a state in which
-- the locks know their holders, whatever the goroutines have done in whatever order, if one of them
-- is not outside, then one of those that are not outside can make its next step.
pub Reach-GoesOn :
    {start s : System} {p : Point} {others : List Point}
    → IsLocked start
    → IsTallied start
    → Reach start s
    → Moves s.threads p outside others
    → p ≢ outside
    → GoesOn s
Reach-GoesOn {s = s} {p = p} locked tallied r m ne =
    point-GoesOn s (Reach-IsLocked locked r) (Reach-IsTallied tallied r) p ne (Moves-At m)

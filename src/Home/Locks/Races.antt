-- ===== src/Home/Locks/Races.antt =====
-- Two broadcasts at once: both hold the lock as readers.
use mqtt_home_automation.Base.{
  ℕ, suc, ◌≡◌, refl, ap, sym, ◌∙◌, Bool, true, false, List, [], ◌∷◌, arith, subst, if◌then◌else◌,
}
use mqtt_home_automation.Home.Socket.{is_client, add_client}
use mqtt_home_automation.Home.Locks.{
  Broadcast, of_status, of_log, set_at, coming, entering, waiting, come_mutex, call_mutex,
  take_mutex, Point, outside, looping, sending, deleting, System, Moves, first, later, Reach,
  read_lock, send, failed, wanting, pending, come, call, lock, adding, added, before_greeting,
  greeting, greet, here, next,
}

-- A move in two steps.
Moves-between :
    {ps qs : List Point} {p q : Point}
    → Moves ps p q qs
    → (between : Point) → (rs : List Point) × Moves ps p between rs × Moves rs between q qs
Moves-between (first p q ps) between = (between ∷ ps, first p between ps, first between q ps)
Moves-between (later r m) between =
    let (rs, a, b) = Moves-between m between in (r ∷ rs, later r a, later r b)

append-Reach : {r s t : System} → Reach r s → Reach s t → Reach r t
append-Reach a here = a
append-Reach a (next b s) = next (append-Reach a b) s

is_client_first : (c : ℕ) (cs : List ℕ) → is_client c (c ∷ cs) ≡ true
unfolding is_client
is_client_first c cs = ground arith

-- Where a broadcast is with its first client: in the write, or behind a write that failed.
abbrev pub at_first : Broadcast → Bool → ℕ → List ℕ → Point
at_first k fails c cs = if fails then deleting k c cs else sending k c cs

-- The state with one more broadcast in its section.
abbrev pub with_broadcast : Broadcast → List Point → System → System
with_broadcast k ts s = record s {
  readers = suc s.readers;
  held = set_at k true s.held;
  threads = ts;
}

reaches_sending :
    (s : System) (k : Broadcast) (c : ℕ) (cs : List ℕ) (ts : List Point)
    → s.writer ≡ false
    → s.held k ≡ false
    → s.greeters k ≡ 0
    → s.clients ≡ c ∷ cs
    → Moves s.threads outside (sending k c cs) ts
    → Reach s (with_broadcast k ts s)
reaches_sending s k c cs ts w f z e m =
    let (ps, i, j) = Moves-between m (coming k) in
    let (qs, g, h) = Moves-between j (entering k) in
    let (rs, a, b) = Moves-between h (waiting k) in
    let (us, l, n) = Moves-between b (looping k (c ∷ cs)) in
    let called = record s { held = set_at k true s.held; threads = qs } in
    let taken = record s { held = set_at k true s.held; threads = rs } in
    let looks : Moves rs (waiting k) (looping k s.clients) us =
      subst (λ x. Moves rs (waiting k) (looping k x) us) (sym e) l in
    next
      (next
        (next
          (next (next here (come_mutex s ps k i)) (call_mutex (record s { threads = ps }) qs k f g))
          (take_mutex called rs k z a))
        (read_lock taken us k w looks))
      (send (with_broadcast k us s) ts k c cs (ap (is_client c) e ∙ is_client_first c cs) n)

reaches_first :
    (s : System) (k : Broadcast) (fails : Bool) (c : ℕ) (cs : List ℕ) (ts : List Point)
    → s.writer ≡ false
    → s.held k ≡ false
    → s.greeters k ≡ 0
    → s.clients ≡ c ∷ cs
    → Moves s.threads outside (at_first k fails c cs) ts
    → Reach s (with_broadcast k ts s)
reaches_first s k false c cs ts w f z e m = reaches_sending s k c cs ts w f z e m
reaches_first s k true c cs ts w f z e m =
    let (rs, a, b) = Moves-between m (sending k c cs) in
    next (reaches_sending s k c cs rs w f z e a) (failed (with_broadcast k rs s) ts k c cs b)

-- While no goroutine holds the lock as a writer or the mutex of a broadcast, none of handleWebSocket
-- is in a loop that writes to its connection, and some client is connected: a broadcast of a status
-- and a broadcast of a log entry can come to be both in the write to the same connection, and also
-- both at the delete from the map.
pub broadcasts_race :
    (s : System) (fails : Bool) (c : ℕ) (cs : List ℕ) (ts us : List Point)
    → s.writer ≡ false
    → s.held of_status ≡ false
    → s.held of_log ≡ false
    → s.greeters of_status ≡ 0
    → s.greeters of_log ≡ 0
    → s.clients ≡ c ∷ cs
    → Moves s.threads outside (at_first of_status fails c cs) ts
    → Moves ts outside (at_first of_log fails c cs) us
    → Reach s (with_broadcast of_log us (with_broadcast of_status ts s))
unfolding set_at
broadcasts_race s fails c cs ts us w f g y z e m n =
    append-Reach (reaches_first s of_status fails c cs ts w f y e m)
      (reaches_first (with_broadcast of_status ts s) of_log fails c cs us w g z e n)

-- The state with one more connection in the map, to which handleWebSocket writes the statuses.
abbrev pub with_greeting : ℕ → List Point → System → System
with_greeting c ts s = record s {
  clients = add_client c s.clients;
  writer = false;
  greeters = set_at of_status (suc (s.greeters of_status)) s.greeters;
  threads = ts;
}

reaches_greeting :
    (s : System) (c : ℕ) (ts : List Point)
    → s.writer ≡ false
    → s.readers ≡ 0
    → s.held of_status ≡ false
    → Moves s.threads outside (greeting of_status c) ts
    → Reach s (with_greeting c ts s)
reaches_greeting s c ts w r f m =
    let (ns, i, j) = Moves-between m (wanting true c) in
    let (ps, g, h) = Moves-between j (pending true c) in
    let (qs, a, b) = Moves-between h (adding c) in
    let (rs, d, e) = Moves-between b (before_greeting of_status c) in
    next
      (next
        (next
          (next (next here (come s ns c true i)) (call (record s { threads = ns }) ps c true w g))
          (lock (record s { writer = true; threads = ps }) qs c true r a))
        (added (record s { writer = true; threads = qs }) rs c d))
      (greet (record s { clients = add_client c s.clients; writer = false; threads = rs }) ts
        of_status c f e)

-- While no goroutine holds the lock, or the mutex of a broadcast, and no other page is connected or
-- connecting: handleWebSocket can come to be in the loop that writes the statuses to its new
-- connection while a broadcast of a log entry is in the write to that connection.
pub greeting_races :
    (s : System) (c : ℕ) (ts us : List Point)
    → s.writer ≡ false
    → s.readers ≡ 0
    → s.held of_status ≡ false
    → s.held of_log ≡ false
    → s.greeters of_log ≡ 0
    → s.clients ≡ []
    → Moves s.threads outside (greeting of_status c) ts
    → Moves ts outside (sending of_log c []) us
    → Reach s (with_broadcast of_log us (with_greeting c ts s))
unfolding set_at add_client is_client
greeting_races s c ts us w r f g z e m n =
    append-Reach (reaches_greeting s c ts w r f m)
      (reaches_sending (with_greeting c ts s) of_log c [] us refl g z (ap (add_client c) e) n)

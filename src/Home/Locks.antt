-- ===== src/Home/Locks.antt =====
-- The goroutines of cmd/home-automation-server that use the map of web sockets, between the lock and
-- the unlock of wsMutex: broadcastUpdate and broadcastMQTTLog of mqtt.go, which take it as readers,
-- and the two places of handleWebSocket in web.go, which take it as writers. Between the two, the
-- latter writes what there is to its connection while it reads under statusMutex and mqttLogMutex.
pub mod Exclusion
pub mod Races
pub mod Tallies
pub mod Points
pub mod Progress
pub mod Rests
use mqtt_home_automation.Base.{ℕ, suc, ◌+◌, ◌≡◌, Bool, true, false, List, [], ◌∷◌, if◌then◌else◌}
use mqtt_home_automation.Home.Broadcast.{remove_client}
use mqtt_home_automation.Home.Socket.{is_client, add_client}

-- The two broadcasts: broadcastUpdate runs while handleStatusUpdate holds statusMutex, and
-- broadcastMQTTLog while addMQTTLogEntry holds mqttLogMutex.
pub data Broadcast : Type 0 where
  of_status of_log : Broadcast

-- Where a goroutine is: outside; at the Lock of the mutex of its broadcast, or there with no other
-- writer before it, waiting for the readers; with that mutex, before RLock; in the loop of a broadcast,
-- with the clients still to come; in WriteJSON to a client; at the delete behind a failed write; or, in
-- handleWebSocket, at Lock to add (true) or delete its own connection, or there with no other writer
-- before it; about to add or delete it; or before or in one of the loops that write to it the statuses,
-- and then the log.
pub data Point : Type 0 where
  outside : Point
  coming entering waiting : Broadcast → Point
  looping : Broadcast → List ℕ → Point
  sending deleting : Broadcast → ℕ → List ℕ → Point
  wanting pending : Bool → ℕ → Point
  adding leaving : ℕ → Point
  before_greeting greeting : Broadcast → ℕ → Point

-- The map, the readers that hold its lock, whether a writer does or waits for the readers alone, of
-- which of the mutexes of the broadcasts the same is true, by how many loops of handleWebSocket each is
-- read, and the goroutines.
pub record System : Type 0 where
  pub clients : List ℕ
  pub readers : ℕ
  pub writer : Bool
  pub held : Broadcast → Bool
  pub greeters : Broadcast → ℕ
  pub threads : List Point

unfoldable pub set_at : {A : Type 0} → Broadcast → A → (Broadcast → A) → Broadcast → A
set_at of_status b f of_status = b
set_at of_status b f of_log = f of_log
set_at of_log b f of_status = f of_status
set_at of_log b f of_log = b

-- Where handleWebSocket goes when a loop is done.
unfoldable pub after_greeting : Broadcast → ℕ → Point
after_greeting of_status c = before_greeting of_log c
after_greeting of_log c = outside

-- One goroutine goes from a point to another one.
pub data Moves : List Point → Point → Point → List Point → Type 0 where
  first : (p q : Point) (ps : List Point) → Moves (p ∷ ps) p q (q ∷ ps)
  later :
      {ps qs : List Point} {p q : Point} (r : Point) → Moves ps p q qs → Moves (r ∷ ps) p q (r ∷ qs)

-- Lock is two steps, as in sync.RWMutex: the goroutine waits for the other writers, and from then on
-- it keeps new readers off, and waits for those that there are. When it unlocks, whoever waits may be
-- next, where sync.RWMutex lets the waiting readers go first. The loop skips a client that was deleted
-- before it came. At its end both locks are released. Other readers of the two mutexes, which write to
-- no connection, are left out.
pub data Step : System → System → Type 0 where
  come_mutex :
      (s : System) (ts : List Point) (k : Broadcast)
      → Moves s.threads outside (coming k) ts
      → Step s (record s { threads = ts })
  call_mutex :
      (s : System) (ts : List Point) (k : Broadcast)
      → s.held k ≡ false
      → Moves s.threads (coming k) (entering k) ts
      → Step s (record s { held = set_at k true s.held; threads = ts })
  take_mutex :
      (s : System) (ts : List Point) (k : Broadcast)
      → s.greeters k ≡ 0
      → Moves s.threads (entering k) (waiting k) ts
      → Step s (record s { threads = ts })
  read_lock :
      (s : System) (ts : List Point) (k : Broadcast)
      → s.writer ≡ false
      → Moves s.threads (waiting k) (looping k s.clients) ts
      → Step s (record s { readers = suc s.readers; threads = ts })
  send :
      (s : System) (ts : List Point) (k : Broadcast) (c : ℕ) (cs : List ℕ)
      → is_client c s.clients ≡ true
      → Moves s.threads (looping k (c ∷ cs)) (sending k c cs) ts
      → Step s (record s { threads = ts })
  skip :
      (s : System) (ts : List Point) (k : Broadcast) (c : ℕ) (cs : List ℕ)
      → is_client c s.clients ≡ false
      → Moves s.threads (looping k (c ∷ cs)) (looping k cs) ts
      → Step s (record s { threads = ts })
  sent :
      (s : System) (ts : List Point) (k : Broadcast) (c : ℕ) (cs : List ℕ)
      → Moves s.threads (sending k c cs) (looping k cs) ts
      → Step s (record s { threads = ts })
  failed :
      (s : System) (ts : List Point) (k : Broadcast) (c : ℕ) (cs : List ℕ)
      → Moves s.threads (sending k c cs) (deleting k c cs) ts
      → Step s (record s { threads = ts })
  deleted :
      (s : System) (ts : List Point) (k : Broadcast) (c : ℕ) (cs : List ℕ)
      → Moves s.threads (deleting k c cs) (looping k cs) ts
      → Step s (record s { clients = remove_client c s.clients; threads = ts })
  read_unlock :
      (s : System) (ts : List Point) (k : Broadcast) (n : ℕ)
      → s.readers ≡ suc n
      → Moves s.threads (looping k []) outside ts
      → Step s (record s { readers = n; held = set_at k false s.held; threads = ts })
  come :
      (s : System) (ts : List Point) (c : ℕ) (joins : Bool)
      → Moves s.threads outside (wanting joins c) ts
      → Step s (record s { threads = ts })
  call :
      (s : System) (ts : List Point) (c : ℕ) (joins : Bool)
      → s.writer ≡ false
      → Moves s.threads (wanting joins c) (pending joins c) ts
      → Step s (record s { writer = true; threads = ts })
  lock :
      (s : System) (ts : List Point) (c : ℕ) (joins : Bool)
      → s.readers ≡ 0
      → Moves s.threads (pending joins c) (if joins then adding c else leaving c) ts
      → Step s (record s { threads = ts })
  added :
      (s : System) (ts : List Point) (c : ℕ)
      → Moves s.threads (adding c) (before_greeting of_status c) ts
      → Step s (record s { clients = add_client c s.clients; writer = false; threads = ts })
  left :
      (s : System) (ts : List Point) (c : ℕ)
      → Moves s.threads (leaving c) outside ts
      → Step s (record s { clients = remove_client c s.clients; writer = false; threads = ts })
  greet :
      (s : System) (ts : List Point) (k : Broadcast) (c : ℕ)
      → s.held k ≡ false
      → Moves s.threads (before_greeting k c) (greeting k c) ts
      → Step s (record s { greeters = set_at k (suc (s.greeters k)) s.greeters; threads = ts })
  greeted :
      (s : System) (ts : List Point) (k : Broadcast) (c n : ℕ)
      → s.greeters k ≡ suc n
      → Moves s.threads (greeting k c) (after_greeting k c) ts
      → Step s (record s { greeters = set_at k n s.greeters; threads = ts })

pub data Reach (start : System) : System → Type 0 where
  here : Reach start start
  next : {a b : System} → Reach start a → Step a b → Reach start b

-- In the section of a reader, and in that of a writer.
unfoldable pub reads : Point → Bool
reads outside = false
reads (coming k) = false
reads (entering k) = false
reads (waiting k) = false
reads (looping k cs) = true
reads (sending k c cs) = true
reads (deleting k c cs) = true
reads (wanting b c) = false
reads (pending b c) = false
reads (adding c) = false
reads (leaving c) = false
reads (before_greeting k c) = false
reads (greeting k c) = false

unfoldable pub writes : Point → Bool
writes outside = false
writes (coming k) = false
writes (entering k) = false
writes (waiting k) = false
writes (looping k cs) = false
writes (sending k c cs) = false
writes (deleting k c cs) = false
writes (wanting b c) = false
writes (pending b c) = false
writes (adding c) = true
writes (leaving c) = true
writes (before_greeting k c) = false
writes (greeting k c) = false

-- In the section of a writer, or next in turn for it.
unfoldable pub announces : Point → Bool
announces (pending b c) = true
announces outside = false
announces (coming k) = false
announces (entering k) = false
announces (waiting k) = false
announces (looping k cs) = false
announces (sending k c cs) = false
announces (deleting k c cs) = false
announces (wanting b c) = false
announces (adding c) = true
announces (leaving c) = true
announces (before_greeting k c) = false
announces (greeting k c) = false

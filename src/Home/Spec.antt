-- ===== src/Home/Spec.antt =====
-- What a client of cmd/home-automation-server can rely on: a status for each device, a log of the
-- newest entries, and the set of connected web sockets, with the changes that may happen to them.
-- The order of the maps and the handlers of the program are forgotten.
pub mod Members
pub mod Handlers
pub mod Refines
use mqtt_home_automation.Base.{
  ℕ, ◌≡◌, Bool, not, ◌&&◌, ◌||◌, List, [], ◌∷◌, Option, none, some, take, ◌==◌, if◌then◌else◌,
}
use mqtt_home_automation.Text.{Bytes, str_eq}
use mqtt_home_automation.Home.State.{DeviceStatus, LogEntry}

pub record View : Type 0 where
  pub status : Bytes → Option DeviceStatus
  pub log : List LogEntry
  pub limit : ℕ
  pub connected : ℕ → Bool

-- An entry comes to the log, and the sockets that do not take it are gone.
pub record Entered (entry : LogEntry) (takes : ℕ → Bool) (v w : View) : Type 0 where
  pub limit : w.limit ≡ v.limit
  pub log : w.log ≡ take v.limit (entry ∷ v.log)
  pub status : (k : Bytes) → w.status k ≡ v.status k
  pub connected : (c : ℕ) → w.connected c ≡ (v.connected c && takes c)

-- A device gets a status, and the sockets that do not take it are gone.
pub record Stored (id : Bytes) (d : DeviceStatus) (takes : ℕ → Bool) (v w : View) : Type 0 where
  pub limit : w.limit ≡ v.limit
  pub log : w.log ≡ v.log
  pub status : (k : Bytes) → w.status k ≡ (if str_eq id k then some d else v.status k)
  pub connected : (c : ℕ) → w.connected c ≡ (v.connected c && takes c)

-- A socket joins, or leaves, and nothing else happens.
pub record Resocketed (change : ℕ → Bool → Bool) (v w : View) : Type 0 where
  pub limit : w.limit ≡ v.limit
  pub log : w.log ≡ v.log
  pub status : (k : Bytes) → w.status k ≡ v.status k
  pub connected : (c : ℕ) → w.connected c ≡ change c (v.connected c)

pub data Change (v w : View) : Type 0 where
  entered : (entry : LogEntry) (takes : ℕ → Bool) → Entered entry takes v w → Change v w
  stored : (id : Bytes) (d : DeviceStatus) (takes : ℕ → Bool) → Stored id d takes v w → Change v w
  joined : (c : ℕ) → Resocketed (λ d b. b || (c == d)) v w → Change v w
  left : (c : ℕ) → Resocketed (λ d b. b && not (c == d)) v w → Change v w

pub data Changes (v : View) : View → Type 0 where
  same : Changes v v
  more : {u w : View} → Changes v u → Change u w → Changes v w

-- ===== src/Serial/Port/Timers.antt =====
-- The timers that fire, and how many of them a part of a script takes.
use mqtt_home_automation.Base.{
  ℕ, suc, ◌+◌, ◌≤◌, ◌≡◌, List, [], ◌∷◌, arith, refl, Option, none, some, ◌⊎◌, inl, inr,
}
use mqtt_home_automation.Text.{Bytes}
use mqtt_home_automation.Serial.Port.{
  Event, recv, elapsed, World, waiting, handle_send, sent, record_write, write, to_send,
}

-- The timers that fire.
abbrev pub expiries : List Event → ℕ
expiries [] = 0
expiries (elapsed ∷ events) = suc (expiries events)
expiries (recv char ∷ events) = expiries events

-- With n timers to fire it does not wait for ever, and it takes at most n of them.
pub record Takes (n : ℕ) (before : List Event) (Waits : Type 0) (after : List Event) : Type 0 where
  pub ends : n ≤ expiries before → Waits → ⊥
  pub left : expiries before ≤ n + expiries after

-- What takes no event, and does not wait.
pub Takes-none :
    (n : ℕ) (events : List Event) {Waits : Type 0} → (Waits → ⊥) → Takes n events Waits events
Takes-none n events ends_now = record { ends = λ h x. ends_now x; left = omega arith }

sent-ne-waiting : (r : Option Bytes) → sent r ≡ waiting → ⊥
unfolding sent
sent-ne-waiting none e = cc
sent-ne-waiting (some x) e = cc

events-record_write :
    (r : Option Bytes) (d : Bytes) (w : World) → (record_write r d w).events ≡ w.events
unfolding record_write
events-record_write none d w = refl
events-record_write (some e) d w = refl

events-write : (d : Bytes) (w : World) → (write d w).1.events ≡ w.events
unfolding write
events-write d w = go w.write_results refl
  where
    go : (rs : List (Option Bytes)) → w.write_results ≡ rs → (write d w).1.events ≡ w.events
    go [] e = rw (write, e) (events-record_write none d w)
    go (r ∷ rs) e = rw (write, e) (events-record_write r d (record w { write_results = rs }))

pub handle_send-Takes :
    (v : Bytes) (w : World)
    → Takes 0 w.events ((handle_send v w).0 ≡ waiting) (handle_send v w).1.events
unfolding handle_send
handle_send-Takes v w =
    rw (events-write (to_send v) w)
      (Takes-none 0 w.events (sent-ne-waiting (write (to_send v) w).0))

-- One after the other.
pub Takes-then :
    (n m : ℕ) (before between after : List Event) {First Second Waits : Type 0}
    → Takes n before First between
    → Takes m between Second after
    → (Waits → First ⊎ Second)
    → Takes (n + m) before Waits after
Takes-then n m before between after a b either = record {
  ends = λ h x. elim (either x) [
    | inl f ↦ a.ends (omega arith) f
    | inr g ↦ let l = a.left in b.ends (omega (arith, l)) g
  ];
  left = let l = a.left in let r = b.left in omega (arith, l, r);
}

-- What may take more.
pub Takes-le :
    (n m : ℕ) (before after : List Event) {Waits : Type 0}
    → n ≤ m
    → Takes n before Waits after
    → Takes m before Waits after
Takes-le n m before after h t =
    let l = t.left in
    record { ends = λ e. t.ends (omega (arith, h, e)); left = omega (arith, h, l) }

-- What waits for ever before the rest could begin.
pub Takes-stop :
    (n m : ℕ) (before after : List Event) {First Waits : Type 0}
    → Takes n before First after
    → First
    → Takes (n + m) before Waits after
Takes-stop n m before after t f =
    let l = t.left in record { ends = λ h x. t.ends (omega arith) f; left = omega (arith, l) }

-- ===== src/Home/Connect/Attempts.antt =====
-- How the connection loop ends.
use native.Mathlib.Decide.{dec_lt}
use mqtt_home_automation.Base.{
  ℕ, zero, suc, ◌+◌, ◌≤◌, ◌<◌, ◌≡◌, ◌≢◌, ◌⊎◌, ◌&&◌, false, Option, none, some, arith, leb,
  Bool-cases, Option-cases, inl, inr,
}
use mqtt_home_automation.Base.Int.{pos, to_ℕ, is_positive}
use mqtt_home_automation.Text.{Bytes}
use mqtt_home_automation.Home.State.{MqttConfig}
use mqtt_home_automation.Home.Connect.{
  Connection, connected, given_up, retry_from, connect_mqtt_with_retry,
}

-- The attempts from number `first` on and before number `last` all fail.
abbrev AllFail : (ℕ → Option Bytes) → ℕ → ℕ → Type 0
AllFail attempt first last = (i : ℕ) → first ≤ i → i < last → attempt i ≢ none

-- The loop from a number of failed attempts on, under the limit of suc k attempts.
abbrev pub EndsWithin : (ℕ → Option Bytes) → ℕ → ℕ → Connection → Type 0
EndsWithin attempt k first r =
    ((m : ℕ) × (r ≡ connected m) × (m ≤ k) × (attempt m ≡ none) × AllFail attempt first m)
    ⊎ ((e : Bytes) × (r ≡ given_up (suc k) e)
        × (attempt k ≡ some e)
        × AllFail attempt first (suc k))

module _ (config : MqttConfig) (attempt : ℕ → Option Bytes) where
  fails_first :
      (first last : ℕ) (e : Bytes)
      → attempt first ≡ some e
      → AllFail attempt (first + 1) last
      → AllFail attempt first last
  fails_first first last e h later i a b = elim (dec_lt first i) [
    | yes l ↦ later i (omega arith) b
    | no n ↦
        let same : first ≡ i = omega arith in λ x. let y : attempt first ≡ none = rw same x in cc
  ]

  retry_from-EndsWithin :
      (k fuel count : ℕ)
      → config.max_retries ≡ pos (suc k)
      → count + fuel ≡ suc k
      → 0 < fuel
      → EndsWithin attempt k count (retry_from config attempt fuel count)
  unfolding retry_from
  retry_from-EndsWithin k zero count m s f = absurd (omega arith)
  retry_from-EndsWithin k (suc fuel) count m s f =
      tried (Option-cases (attempt count))
        (retry_from-EndsWithin k fuel (count + 1) m (omega arith))
    where
      tried :
          (attempt count ≡ none) ⊎ ((e : Bytes) × (attempt count ≡ some e))
          → (0 < fuel
              → EndsWithin attempt k (count + 1) (retry_from config attempt fuel (count + 1)))
          → EndsWithin attempt k count (retry_from config attempt (suc fuel) count)
      tried (inl a) rec =
          inl (count, rw (a, retry_from), omega arith, a, λ i x y. absurd (omega arith))
      tried (inr (e, a)) rec = elim (Bool-cases (leb (suc k) (count + 1))) [
        | inl stop ↦
            let last : count ≡ k = ground arith in
            inr (
              e,
              rw (a, m, stop, retry_from) (ground arith),
              rw last at a,
              fails_first count (suc k) e a (λ i x y. absurd (omega arith)),
            )
        | inr more ↦
            let step : retry_from config attempt (suc fuel) count
                ≡ retry_from config attempt fuel (count + 1) =
              rw (a, m, more, retry_from) in
            rw step (elim (rec (ground arith)) [
              | inl (j, r, b, n, l) ↦ inl (j, r, b, n, fails_first count j e a l)
              | inr (d, r, n, l) ↦ inr (d, r, n, fails_first count (suc k) e a l)
            ])
      ]

  -- With a limit of n > 0 attempts the loop ends within n attempts: with the first attempt that
  -- succeeds, or, if all n fail, with the error of the last.
  pub connect_mqtt_with_retry_ends :
      (k : ℕ)
      → config.max_retries ≡ pos (suc k)
      → EndsWithin attempt k 0 (connect_mqtt_with_retry config attempt (suc k))
  unfolding connect_mqtt_with_retry
  connect_mqtt_with_retry_ends k m = retry_from-EndsWithin k (suc k) 0 m (omega arith) (omega arith)

  retry_from-ne-given_up :
      (fuel count n : ℕ) (e : Bytes)
      → is_positive config.max_retries ≡ false
      → retry_from config attempt fuel count ≢ given_up n e
  unfolding retry_from
  retry_from-ne-given_up zero count n e h x = cc
  retry_from-ne-given_up (suc fuel) count n e h x =
      tried (Option-cases (attempt count)) (retry_from-ne-given_up fuel (count + 1) n e h)
    where
      tried :
          (attempt count ≡ none) ⊎ ((f : Bytes) × (attempt count ≡ some f))
          → retry_from config attempt fuel (count + 1) ≢ given_up n e
          → ⊥
      tried (inl a) rec = let y : connected count ≡ given_up n e = rw (a, retry_from) at x in cc
      tried (inr (f, a)) rec = rec (rw (a, h, retry_from) at x)

  -- Without a positive limit the loop never gives up, however long it runs.
  connect_mqtt_with_retry_persists :
      (fuel n : ℕ) (e : Bytes)
      → is_positive config.max_retries ≡ false
      → connect_mqtt_with_retry config attempt fuel ≢ given_up n e
  unfolding connect_mqtt_with_retry
  connect_mqtt_with_retry_persists fuel n e h = retry_from-ne-given_up fuel 0 n e h

  -- The loop does not stop at a failed attempt: there is no limit, or more attempts are left.
  abbrev pub GoesOn : ℕ → Type 0
  GoesOn m = (is_positive config.max_retries ≡ false) ⊎ (m < to_ℕ config.max_retries)

  not_last :
      (count m : ℕ)
      → count < m
      → GoesOn m
      → (is_positive config.max_retries && leb (to_ℕ config.max_retries) (count + 1)) ≡ false
  not_last count m l (inl e) = rw e
  not_last count m l (inr g) = ground arith

  retry_from_succeeds :
      (left count m fuel : ℕ)
      → count + left ≡ m
      → attempt m ≡ none
      → AllFail attempt count m
      → GoesOn m
      → left < fuel
      → retry_from config attempt fuel count ≡ connected m
  unfolding retry_from
  retry_from_succeeds left count m zero s a f g l = absurd (omega arith)
  retry_from_succeeds zero count m (suc fuel) s a f g l =
      let here : count ≡ m = omega arith in rw here (rw (a, retry_from))
  retry_from_succeeds (suc left) count m (suc fuel) s a f g l =
      elim (Option-cases (attempt count)) [
        | inl e ↦ absurd (f count (omega arith) (omega arith) e)
        | inr (e, q) ↦
            rw (q, not_last count m (omega arith) g, retry_from)
              (retry_from_succeeds left (count + 1) m fuel (omega arith) a
                (λ i x y. f i (omega arith) y) g (omega arith))
      ]

  -- If some attempt succeeds, no earlier one does, and the limit on the attempts, if there is one,
  -- is not reached before it, then the loop connects with that attempt.
  pub connect_mqtt_with_retry_connects :
      (m fuel : ℕ)
      → attempt m ≡ none
      → AllFail attempt 0 m
      → GoesOn m
      → m < fuel
      → connect_mqtt_with_retry config attempt fuel ≡ connected m
  unfolding connect_mqtt_with_retry
  connect_mqtt_with_retry_connects m fuel a f g l =
      retry_from_succeeds m 0 m fuel (omega arith) a f g l

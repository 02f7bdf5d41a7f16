-- ===== src/Home/Connect/Reconnects.antt =====
-- When the loop of reconnectMQTT ends.
use mqtt_home_automation.Base.{
  ℕ, zero, suc, ◌+◌, ◌/◌, ◌<◌, ◌≡◌, ◌∙◌, ap, Bool, true, false, some, arith,
}
use mqtt_home_automation.Home.Connect.{reconnect_from, reconnect_mqtt}

module _ (is_connected : ℕ → Bool) where
  reconnect_from-ends :
      (n : ℕ)
      → is_connected n ≡ true
      → ((k : ℕ) → k < n → is_connected k ≡ false)
      → (fuel m i count : ℕ) → i + m ≡ n
      → m < fuel
      → reconnect_from is_connected fuel i count ≡ some (count + (m + 1) / 2)
  unfolding reconnect_from
  reconnect_from-ends n now before zero m i count e f = absurd (omega arith)
  reconnect_from-ends n now before (suc fuel) zero i count e f =
      let same : i ≡ n = omega arith in
      let none_left : count ≡ count + (0 + 1) / 2 = omega arith in
      rw (same, now) (ap some none_left)
  reconnect_from-ends n now before (suc fuel) (suc zero) i count e f =
      let same : i + 1 ≡ n = omega arith in
      let one_left : count + 1 ≡ count + (1 + 1) / 2 = omega arith in
      rw (before i (omega arith), same, now) (ap some one_left)
  reconnect_from-ends n now before (suc fuel) (suc (suc m)) i count e f =
      let step : count + 1 + (m + 1) / 2 ≡ count + (suc (suc m) + 1) / 2 = omega arith in
      rw (before i (omega arith), before (i + 1) (omega arith))
        (reconnect_from-ends n now before fuel m (i + 2) (count + 1) (omega arith) (omega arith)
          ∙ ap some step)

  -- If the client is connected again at some check, and not before, the loop ends at that check,
  -- after one attempt for two checks: the first check is none, the two after it are one.
  pub reconnect_mqtt_ends :
      (n fuel : ℕ)
      → is_connected n ≡ true
      → ((k : ℕ) → k < n → is_connected k ≡ false)
      → n < fuel
      → reconnect_mqtt is_connected fuel ≡ some ((n + 1) / 2)
  unfolding reconnect_mqtt
  reconnect_mqtt_ends n fuel now before f =
      reconnect_from-ends n now before fuel n 0 0 (omega arith) f ∙ ap some (omega arith)

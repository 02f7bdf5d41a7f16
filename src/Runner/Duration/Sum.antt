-- ===== src/Runner/Duration/Sum.antt =====
-- The parts of a duration add up to its seconds.
use mqtt_home_automation.Base.{ℕ, ◌+◌, ◌*◌, ◌/◌, ◌<◌, ◌≡◌, arith}
use mqtt_home_automation.Runner.Duration.{Clock, parts_of}

-- The floating-point quotients are cut to the whole units in a duration.
pub record IsExact (clock : Clock) : Type 0 where
  pub hours : (d : ℕ) → clock.hours d ≡ d / 3_600_000_000_000
  pub minutes : (d : ℕ) → clock.minutes d ≡ d / 60_000_000_000
  pub seconds : (d : ℕ) → clock.seconds d ≡ d / 1_000_000_000

-- If the clock cuts to whole units, the parts shown for a duration are in their ranges and make up
-- its whole seconds.
pub parts_of_sum :
    (clock : Clock) (d : ℕ)
    → IsExact clock
    → ((parts_of clock d).hours < 24)
      × ((parts_of clock d).minutes < 60)
      × ((parts_of clock d).seconds < 60)
      × ((parts_of clock d).days * 86400
            + (parts_of clock d).hours * 3600
            + (parts_of clock d).minutes * 60
            + (parts_of clock d).seconds
          ≡ d / 1_000_000_000)
unfolding parts_of
parts_of_sum clock d e = omega (arith, e.hours d, e.minutes d, e.seconds d)

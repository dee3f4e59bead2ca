-- ===== src/Fare/Bounds.antt =====
-- Bounds and orders of the fares of src/services/fareCalculator.js and of the trip settlement.
use oncall_backend_private.Prelude.{
  ℕ, zero, suc, ◌+◌, ◌-◌, ◌*◌, ◌≤◌, ◌<◌, ◌≡◌, ◌⊎◌, Bool, true, false, Option, some, arith,
}
use oncall_backend_private.Fare.{
  minimum_fare, calculate_fare, get_fare_breakdown, settle_trip_duration, final_fare,
}

-- A metered fare is never under the minimum fare, and a longer trip never costs less.
pub calculate_fare_mono :
    (hour d e m n : ℕ) (apply : Bool)
    → d ≤ e
    → m ≤ n
    → (minimum_fare ≤ calculate_fare hour d m apply)
      × (calculate_fare hour d m apply ≤ calculate_fare hour e n apply)
unfolding calculate_fare
calculate_fare_mono hour d e m n apply h k = ground arith

-- The estimate that a passenger is shown (with the multiplier of the hour) is at least the metered
-- fare of the same distance and minutes, and at most half as much again, but for rounding.
pub breakdown_brackets_fare :
    (hour d m : ℕ)
    → (calculate_fare hour d m false ≤ (get_fare_breakdown hour d m).total)
      × (2 * (get_fare_breakdown hour d m).total ≤ 3 * calculate_fare hour d m false + 3)
      × ((get_fare_breakdown hour d m).total ≡ calculate_fare hour d m true)
unfolding calculate_fare get_fare_breakdown
breakdown_brackets_fare hour d m = ground arith

-- A trip that has a start, ends later and lasts less than a day is charged for at least one minute
-- and at most a day, and for no more than half a minute away from the time it took (but for the first minute).
pub duration_bounds :
    (start now : ℕ)
    → 0 < start
    → start < now
    → now < start + 86400000
    → let minutes = settle_trip_duration (some start) now in
      (1 ≤ minutes)
      × (minutes ≤ 1440)
      × (2 * (now - start) < 120000 * minutes + 60000)
      × ((minutes ≡ 1) ⊎ (120000 * minutes ≤ 2 * (now - start) + 60000))
unfolding settle_trip_duration
duration_bounds (suc s) now h k l = ground arith
duration_bounds zero now h k l = absurd (omega arith)

-- A final fare is never free: at least the minimum fare, or the estimate where that is used.
pub final_fare_pos :
    (hour d m : ℕ) (estimate : Option ℕ)
    → (minimum_fare ≤ final_fare hour d m estimate)
      ⊎ ((estimate ≡ some (final_fare hour d m estimate)) × (0 < final_fare hour d m estimate))
unfolding final_fare
final_fare_pos hour d m estimate = ground arith

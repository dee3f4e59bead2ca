-- ===== src/Fare.antt =====
-- Fares and the figures of a finished trip: src/services/fareCalculator.js and the pure
-- computations of src/domain/trips/tripPolicies.js.
-- Money is counted in fils (1/1000 KD), which is the unit that the source rounds to; a distance is a
-- whole number of millimetres, so that a fare before rounding is a whole number of 1/5000 fils
-- (0.2 KD per km is one fils per 5000 mm). Floating-point error below these units is left out.
pub mod Bounds
use oncall_backend_private.Prelude.{
  ℕ, zero, suc, ◌+◌, ◌-◌, ◌*◌, ◌/◌, max, Bool, true, false, ◌&&◌, ◌||◌, Option, none, some, List,
  [], ◌∷◌, ltb, leb, if◌then◌else◌,
}

-- `Math.round(n / k)` for a quotient that is not negative: halves go up.
abbrev pub round_div : ℕ → ℕ → ℕ
round_div n k = (2 * n + k) / (2 * k)

pub data PriceType : Type 0 where
  peak night normal : PriceType

-- The multiplier in quarters: ×1.5, ×1.25, ×1.
abbrev pub quarters : PriceType → ℕ
quarters peak = 6
quarters night = 5
quarters normal = 4

-- `getPriceMultiplier`, at an hour of the day.
unfoldable pub get_price_multiplier : ℕ → PriceType
get_price_multiplier hour =
    if (leb 7 hour && ltb hour 9) || (leb 16 hour && ltb hour 19)
    then peak
    else if leb 23 hour || ltb hour 5
    then night
    else normal

-- The subtotal in 1/5000 fils: base fare, distance fare, time fare.
abbrev pub subtotal : ℕ → ℕ → ℕ
subtotal distance minutes = 2500000 + distance + minutes * 75000

abbrev pub minimum_fare : ℕ
minimum_fare = 750

-- `calculateFare(distanceKm, durationMinutes, applyMultiplier)`, in fils.
unfoldable pub calculate_fare : ℕ → ℕ → ℕ → Bool → ℕ
unfolding get_price_multiplier
calculate_fare hour distance minutes apply_multiplier =
    let total =
      if apply_multiplier
      then subtotal distance minutes * quarters (get_price_multiplier hour)
      else subtotal distance minutes * 4 in
    round_div (max total (minimum_fare * 20000)) 20000

pub record FareBreakdown : Type 0 where
  pub base_fare : ℕ
  pub distance_fare : ℕ
  pub time_fare : ℕ
  pub sub_total : ℕ
  pub multiplier : PriceType
  pub total : ℕ

-- `getFareBreakdown`, without the text of the breakdown.
unfoldable pub get_fare_breakdown : ℕ → ℕ → ℕ → FareBreakdown
unfolding get_price_multiplier
get_fare_breakdown hour distance minutes = record {
  base_fare = 500;
  distance_fare = round_div distance 5000;
  time_fare = minutes * 15;
  sub_total = round_div (subtotal distance minutes) 5000;
  multiplier = get_price_multiplier hour;
  total =
      round_div
        (max (subtotal distance minutes * quarters (get_price_multiplier hour))
          (minimum_fare * 20000))
        20000;
}

-- `settleTripDuration`: minutes since the start, none at all past a day.
unfoldable pub settle_trip_duration : Option ℕ → ℕ → ℕ
settle_trip_duration none now = 0
settle_trip_duration (some zero) now = 0
settle_trip_duration (some (suc s)) now =
    let diff = now - suc s in
    if ltb 0 diff && ltb diff 86400000 then max 1 (round_div diff 60000) else 0

abbrev pub estimate_or_one : Option ℕ → ℕ
estimate_or_one none = 1000
estimate_or_one (some zero) = 1000
estimate_or_one (some (suc f)) = suc f

-- `finalFare`: metered above 0.1 km, else by time, else the estimate (or 1 KD).
unfoldable pub final_fare : ℕ → ℕ → ℕ → Option ℕ → ℕ
unfolding calculate_fare
final_fare hour distance minutes estimated_fare =
    if ltb 100000 distance
    then calculate_fare hour distance minutes false
    else if ltb 0 minutes
    then 1000 + minutes * 50
    else estimate_or_one estimated_fare

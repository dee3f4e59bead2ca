-- ===== src/Trips/Ratings.antt =====
-- Ratings of a finished trip: `rateTrip` and `ratePassenger` of src/application/trips/useCases.js.
-- A rating is a whole number.
pub mod Once
pub mod Average
use Prim.Native.String.{String}
use oncall_backend_private.Prelude.{
  ℕ, zero, suc, ◌+◌, ◌*◌, Bool, true, false, not, Option, none, some, List, [], ◌∷◌, ◌==◌,
  if◌then◌else◌, length,
}
use oncall_backend_private.Sql.{truthy, update_where}
use oncall_backend_private.Schema.{Trip, Driver, rating_received, Db}
use oncall_backend_private.Fare.{round_div}
use oncall_backend_private.Trips.Rules.{
  TripRejection, Gate, allowed, denied, rating_range, rating_bare, trip_not_found, not_driver_rater,
  already_rated, not_completed_for_rating, bad_rating, is_set, is_completed, drives, rating_policy,
}
use oncall_backend_private.Trips.Repository.{
  find_by_id, update_trip, rated_by_passenger, rated_by_driver, get_ratings_by_driver,
  find_driver_by_phone, find_driver_by_id, driver_id_is, notify,
}
use oncall_backend_private.Trips.Matching.{Outcome, ok, err}

pub record RateCommand : Type 0 where
  pub trip_id : ℕ
  pub rating : ℕ
  pub comment : Option String
  pub actor_phone : ℕ

unfoldable pub sum : List ℕ → ℕ
sum [] = 0
sum (x ∷ xs) = x + sum xs

-- `Math.round(avg * 10) / 10`, in tenths.
abbrev pub average_tenths : List ℕ → ℕ
average_tenths rs = round_div (sum rs * 10) (length rs)

abbrev pub with_rating : ℕ → ℕ → Driver → Driver
with_rating tenths count d = record d { rating_tenths = tenths; total_ratings = count }

-- `updateRating` of the driver, unless nothing is rated.
unfoldable pub update_rating : Db → ℕ → List ℕ → Db
unfolding sum
update_rating db driver [] = db
update_rating db driver (r ∷ rs) = record db {
  drivers =
      update_where (driver_id_is driver) (with_rating (average_tenths (r ∷ rs)) (length (r ∷ rs)))
        db.drivers;
}

abbrev pub tell_driver : Db → ℕ → Option Driver → Db
tell_driver db i none = db
tell_driver db i (some d) =
    notify db (record { phone = d.phone; type = rating_received; trip_id = some i })

-- What follows the passenger's rating: the average and the notice of the driver, if there is one.
unfoldable pub after_rating : Db → ℕ → Option ℕ → Db
unfolding update_rating
after_rating db i none = db
after_rating db i (some zero) = db
after_rating db i (some (suc d)) =
    let averaged = update_rating db (suc d) (get_ratings_by_driver db (suc d)) in
    tell_driver averaged i (find_driver_by_id averaged (suc d))

abbrev pub rate_gated : Db → RateCommand → Trip → Gate → Db × Outcome (Unit {0})
rate_gated db c trip (denied code) = (db, err code)
rate_gated db c trip allowed = (
  after_rating (update_trip db c.trip_id (rated_by_passenger c.rating c.comment)) c.trip_id
      trip.driver_id,
  ok tt,
)

abbrev pub rate_found : Db → RateCommand → Option Trip → Db × Outcome (Unit {0})
rate_found db c none = (db, err trip_not_found)
rate_found db c (some trip) =
    rate_gated db c trip (rating_policy c.rating trip c.actor_phone false trip.rating)

-- `rateTrip`.
unfoldable pub rate_trip : Db → RateCommand → Db × Outcome (Unit {0})
rate_trip db c =
    if bad_rating c.rating
    then (db, err rating_range)
    else rate_found db c (find_by_id db c.trip_id)

abbrev pub tell_passenger : Db → ℕ → Option ℕ → Db
tell_passenger db i none = db
tell_passenger db i (some zero) = db
tell_passenger db i (some (suc p)) =
    notify db (record { phone = suc p; type = rating_received; trip_id = some i })

abbrev pub rate_passenger_found : Db → RateCommand → Option Trip → Db × Outcome (Unit {0})
rate_passenger_found db c none = (db, err trip_not_found)
rate_passenger_found db c (some trip) =
    if not (drives (find_driver_by_phone db c.actor_phone) trip)
    then (db, err not_driver_rater)
    else if is_set trip.driver_rating
    then (db, err already_rated)
    else if not (is_completed trip.status)
    then (db, err not_completed_for_rating)
    else (
      tell_passenger (update_trip db c.trip_id (rated_by_driver c.rating c.comment)) c.trip_id
          trip.user_phone,
      ok tt,
    )

-- `ratePassenger`.
unfoldable pub rate_passenger : Db → RateCommand → Db × Outcome (Unit {0})
rate_passenger db c =
    if bad_rating c.rating
    then (db, err rating_bare)
    else rate_passenger_found db c (find_by_id db c.trip_id)

-- ===== src/Scenarios/Ratings.antt =====
-- Scenarios of the ratings.
use oncall_backend_private.Prelude.{◌≡◌, ◌≢◌, refl, none}
use oncall_backend_private.Trips.Repository.{
  find_by_id, find_driver_by_id, rated_by_passenger, get_ratings_by_driver,
}
use oncall_backend_private.Trips.Matching.{ok}
use oncall_backend_private.Trips.Ratings.{RateCommand, rate_trip, rate_passenger}
use oncall_backend_private.Trips.Ratings.Once.{rate_trip_once, rate_passenger_again}
use oncall_backend_private.Scenarios.{town}

abbrev five_stars : RateCommand
five_stars = record { trip_id = 3; rating = 5; comment = none; actor_phone = 50 }

abbrev by_driver : RateCommand
by_driver = record { trip_id = 3; rating = 4; comment = none; actor_phone = 70 }

rate_trip_once_example : (rate_trip (rate_trip town five_stars).0 five_stars).1 ≢ ok tt
unfolding rate_trip find_by_id oncall_backend_private.Sql.select_first
    oncall_backend_private.Trips.Rules.rating_policy
rate_trip_once_example = rate_trip_once town five_stars five_stars refl refl

rate_passenger_again_example :
    (rate_passenger (rate_passenger town by_driver).0 (record by_driver { rating = 1 })).1 ≡ ok tt
unfolding rate_passenger find_by_id oncall_backend_private.Sql.select_first
    oncall_backend_private.Trips.Repository.find_driver_by_phone
rate_passenger_again_example = rate_passenger_again town by_driver 1 refl refl

-- ===== src/Trips/Reads.antt =====
-- The lists, the position of the driver and the views of a trip: the rest of
-- src/application/trips/useCases.js. `formatTrip`, which shapes a row for the answer, is left out: a
-- view answers the row.
pub mod Access
pub mod Position
use oncall_backend_private.Prelude.{
  ℕ, zero, suc, ◌+◌, ◌-◌, ◌*◌, Bool, true, false, ◌&&◌, Option, none, some, List, [], ◌∷◌, ◌++◌,
  ◌==◌, ltb, if◌then◌else◌, take, reverse, length,
}
use oncall_backend_private.Sql.{select_all, update_where}
use oncall_backend_private.Schema.{
  ℤ, Status, Trip, Driver, Taxi, Presence, online, Point, driver_moved, Db,
}
use oncall_backend_private.Fare.{round_div, calculate_fare, settle_trip_duration}
use oncall_backend_private.Trips.Rules.{
  trip_not_found, location_forbidden, access_forbidden, is_waiting, is_in_progress, drives, Viewer,
  can_access_trip,
}
use oncall_backend_private.Trips.Repository.{
  find_by_id, find_driver_by_phone, update_trip, moved, for_driver, of_passenger, taxi_of,
  with_presence, emit,
}
use oncall_backend_private.Trips.Settlement.{Env, route_distance, settle_trip_distance}
use oncall_backend_private.Trips.Matching.{Outcome, ok, err}

-- ORDER BY created_at DESC LIMIT: rows are inserted in the order of time.
unfoldable pub newest : ℕ → List Trip → List Trip
newest limit trips = take limit (reverse trips)

abbrev any_trip : Trip → Bool
any_trip t = true

abbrev waiting : Trip → Bool
waiting t = is_waiting t.status

-- `findForDriver`, `findAll`, `findWaiting`, `findByPassenger`.
unfoldable pub find_for_driver : Db → ℕ → List Trip
find_for_driver db driver = newest 50 (select_all (for_driver driver) db.trips)

unfoldable pub find_all : Db → List Trip
find_all db = newest 100 db.trips

unfoldable pub find_waiting : Db → List Trip
find_waiting db = newest 100 (select_all waiting db.trips)

unfoldable pub find_by_passenger : Db → ℕ → List Trip
find_by_passenger db phone = newest 100 (select_all (of_passenger phone) db.trips)

abbrev trips_for : Db → Option Driver → List Trip
trips_for db none = find_all db
trips_for db (some d) = find_for_driver db d.id

-- `listDriverTrips`: an actor who is no driver is shown every trip.
unfoldable pub list_driver_trips : Db → ℕ → List Trip
list_driver_trips db actor_phone = trips_for db (find_driver_by_phone db actor_phone)

-- `listRequests`, `listPassengerTrips`.
abbrev pub list_requests : Db → List Trip
list_requests = find_waiting

abbrev pub list_passenger_trips : Db → ℕ → List Trip
list_passenger_trips = find_by_passenger

abbrev view : Viewer → Option Trip → Outcome Trip
view user none = err trip_not_found
view user (some trip) = if can_access_trip user trip then ok trip else err access_forbidden

-- `getTrip`.
unfoldable pub get_trip : Db → Viewer → ℕ → Outcome Trip
get_trip db user i = view user (find_by_id db i)

pub record LiveStats : Type 0 where
  pub distance : ℕ
  pub duration_minutes : ℕ
  pub current_fare : ℕ

-- The live figures, with the distance in metres: a count of metres read as thousandths of a km.
unfoldable pub live_stats : Env → ℕ → ℕ → LiveStats
live_stats env distance minutes = record {
  distance = round_div distance 1000;
  duration_minutes = minutes;
  current_fare = calculate_fare env.hour distance minutes false;
}

-- The minutes that `getTripLocation` reports.
unfoldable pub elapsed_minutes : Option ℕ → ℕ → ℕ
elapsed_minutes none now = 0
elapsed_minutes (some zero) now = 0
elapsed_minutes (some (suc s)) now =
    let diff = now - suc s in if ltb 0 diff && ltb diff 86400000 then round_div diff 60000 else 0

pub record TripLocation : Type 0 where
  pub trip : Trip
  pub route : List Point
  pub stats : Option LiveStats

abbrev locate : Env → ℕ → Viewer → Option Trip → Outcome TripLocation
locate env now user none = err trip_not_found
locate env now user (some trip) =
    if can_access_trip user trip
    then ok (record {
      trip = trip;
      route = trip.route;
      stats =
          if is_in_progress trip.status
          then some
              (live_stats env (route_distance env trip.route) (elapsed_minutes trip.start_time now))
          else none;
    })
    else err access_forbidden

-- `getTripLocation`.
unfoldable pub get_trip_location : Env → Db → Viewer → ℕ → ℕ → Outcome TripLocation
get_trip_location env db user i now = locate env now user (find_by_id db i)

abbrev at_place : ℤ → ℤ → Taxi → Taxi
at_place lat lng t = record t { lat = some lat; lng = some lng }

-- `if (trip.driver_id) updateTaxiLocation(…)`.
unfoldable pub update_taxi_location : Db → Option ℕ → ℤ → ℤ → Db
update_taxi_location db none lat lng = db
update_taxi_location db (some zero) lat lng = db
update_taxi_location db (some (suc d)) lat lng = record db {
  taxis = update_where (taxi_of (suc d)) (at_place lat lng) db.taxis;
}

-- The route with the new point, which only a trip in progress records.
unfoldable pub next_route : Trip → ℤ → ℤ → ℕ → List Point
next_route trip lat lng now =
    if is_in_progress trip.status
    then trip.route ++ record { lat = lat; lng = lng; time = now } ∷ []
    else trip.route

abbrev rounded_minutes : Option ℕ → ℕ → ℕ
rounded_minutes none now = 0
rounded_minutes (some start) now =
    if settle_trip_duration (some start) now == 0 then 0 else round_div (now - start) 60000

unfoldable pub moving_stats : Env → Trip → List Point → ℕ → Option LiveStats
moving_stats env trip route now =
    if is_in_progress trip.status && ltb 1 (length route)
    then some
        (live_stats env (settle_trip_distance env route trip) (rounded_minutes trip.start_time now))
    else none

abbrev pub move_by :
    Env → Db → ℕ → ℤ → ℤ → ℕ → Option Trip → Option Driver → Db × Outcome (Option LiveStats)
move_by env db i lat lng now none d = (db, err trip_not_found)
move_by env db i lat lng now (some trip) d =
    let route = next_route trip lat lng now in
    if drives d trip
    then (
      emit (update_taxi_location (update_trip db i (moved lat lng route)) trip.driver_id lat lng)
          (driver_moved i lat lng),
      ok (moving_stats env trip route now),
    )
    else (db, err location_forbidden)

-- `updateLocation`, for the driver whose phone the actor has.
unfoldable pub update_location : Env → Db → ℕ → ℕ → ℤ → ℤ → ℕ → Db × Outcome (Option LiveStats)
update_location env db i actor_phone lat lng now =
    move_by env db i lat lng now (find_by_id db i) (find_driver_by_phone db actor_phone)

-- `deleteAllTrips`: DELETE FROM trips, and every taxi online.
unfoldable pub delete_all_trips : Db → Db
delete_all_trips db = record db {
  trips = [];
  taxis = update_where (λ t. true) (with_presence online) db.taxis;
}

-- ===== src/Trips/Repository.antt =====
-- The statements of src/repositories/TripRepository.js, and those of
-- src/repositories/DriverRepository.js and src/infrastructure/gateways/tripGateways.js that the trip
-- handlers send.
pub mod Found
use Prim.Native.String.{String}
use oncall_backend_private.Prelude.{
  ℕ, zero, suc, ◌+◌, ◌*◌, Bool, true, false, ◌&&◌, ◌||◌, Option, none, some, List, [], ◌∷◌, ◌++◌,
  ◌==◌, if◌then◌else◌, length, map,
}
use oncall_backend_private.Sql.{select_first, select_all, update_where, changes}
use oncall_backend_private.Schema.{
  ℤ, Status, waiting_driver, accepted, in_progress, completed, cancelled, PaymentMethod,
  PaymentStatus, pending, Point, Trip, Driver, Taxi, Presence, online, busy, Notice, NoticeType,
  Timer, Emit, Db,
}
use oncall_backend_private.Fare.{round_div}
use oncall_backend_private.Trips.Rules.{holds, is_waiting, is_set, coord_or_null}

abbrev pub by_id : ℕ → Trip → Bool
by_id i t = t.id == i

-- `findById`.
unfoldable pub find_by_id : Db → ℕ → Option Trip
find_by_id db i = select_first (by_id i) db.trips

-- UPDATE trips SET … WHERE id = ?.
unfoldable pub update_trip : Db → ℕ → (Trip → Trip) → Db
update_trip db i f = record db { trips = update_where (by_id i) f db.trips }

-- `setStatus`, `setRejectedDrivers`, `assignDriver`, `startTrip`, `updateLocation`.
abbrev pub with_status : Status → Trip → Trip
with_status s t = record t { status = s }

abbrev pub with_rejected : List ℕ → Trip → Trip
with_rejected ids t = record t { rejected_drivers = ids }

abbrev pub with_assigned : ℕ → ℕ → Trip → Trip
with_assigned driver sent t = record t {
  assigned_driver_id = some driver;
  request_sent_at = some sent;
}

abbrev pub started : ℕ → Trip → Trip
started now t = record t { status = in_progress; start_time = some now; route = [] }

-- `completeTrip`: the distance is rounded to the metre.
abbrev pub finished : ℕ → ℕ → ℕ → Trip → Trip
finished fare distance minutes t = record t {
  status = completed;
  final_fare = some fare;
  total_distance = round_div distance 1000 * 1000;
  duration_minutes = minutes;
}

abbrev pub moved : ℤ → ℤ → List Point → Trip → Trip
moved lat lng route t = record t { driver_lat = some lat; driver_lng = some lng; route = route }

-- `rateByPassenger` writes `rating`; `rateByDriver` writes `passenger_rating`.
abbrev pub text_or_null : Option String → Option String
text_or_null none = none
text_or_null (some String.[]) = none
text_or_null (some (String.◌∷◌ c s)) = some (String.◌∷◌ c s)

abbrev pub rated_by_passenger : ℕ → Option String → Trip → Trip
rated_by_passenger r c t = record t { rating = some r; rating_comment = text_or_null c }

abbrev pub rated_by_driver : ℕ → Option String → Trip → Trip
rated_by_driver r c t = record t {
  passenger_rating = some r;
  driver_rating_comment = text_or_null c;
}

abbrev pub with_payment_status : PaymentStatus → Trip → Trip
with_payment_status s t = record t { payment_status = s }

abbrev pub is_open : ℕ → Trip → Bool
is_open i t = by_id i t && is_waiting t.status

abbrev pub accepted_by : Driver → Option Taxi → Trip → Trip
accepted_by d taxi t = record t {
  status = accepted;
  driver_id = some d.id;
  driver_name = some d.name;
  driver_lat = taxi_lat taxi;
  driver_lng = taxi_lng taxi;
}
  where
    taxi_lat : Option Taxi → Option ℤ
    taxi_lat none = none
    taxi_lat (some x) = x.lat

    taxi_lng : Option Taxi → Option ℤ
    taxi_lng none = none
    taxi_lng (some x) = x.lng

-- `acceptByDriver`: the UPDATE tests the status itself, and reports how many rows it changed.
unfoldable pub accept_by_driver : Db → ℕ → Driver → Option Taxi → Db × ℕ
accept_by_driver db i driver taxi = (
  record db { trips = update_where (is_open i) (accepted_by driver taxi) db.trips },
  changes (is_open i) db.trips,
)

-- `create`: the new row, under the next id.
unfoldable pub create :
    Db
    → ℕ
    → String
    → String
    → Option ℤ
    → Option ℤ
    → Option ℤ
    → Option ℤ
    → ℕ
    → PaymentMethod
    → Db × ℕ
create db phone pickup destination pickup_lat pickup_lng dest_lat dest_lng estimated method =
    (record db { trips = db.trips ++ row ∷ []; next_trip = suc db.next_trip }, db.next_trip)
  where
    row : Trip
    row = record {
      id = db.next_trip;
      user_phone = if phone == 0 then none else some phone;
      driver_id = none;
      driver_name = none;
      pickup = pickup;
      destination = destination;
      pickup_lat = coord_or_null pickup_lat;
      pickup_lng = coord_or_null pickup_lng;
      dest_lat = coord_or_null dest_lat;
      dest_lng = coord_or_null dest_lng;
      driver_lat = none;
      driver_lng = none;
      status = waiting_driver;
      rejected_drivers = [];
      assigned_driver_id = none;
      request_sent_at = none;
      estimated_fare = some estimated;
      final_fare = none;
      payment_method = method;
      payment_status = pending;
      rating = none;
      rating_comment = none;
      route = [];
      start_time = none;
      total_distance = 0;
      duration_minutes = 0;
      driver_rating = none;
      driver_rating_comment = none;
      passenger_rating = none;
    }

abbrev pub for_driver : ℕ → Trip → Bool
for_driver driver t = is_waiting t.status || holds t.driver_id driver

abbrev pub of_passenger : ℕ → Trip → Bool
of_passenger phone t = holds t.user_phone phone

abbrev pub rated_trip_of : ℕ → Trip → Bool
rated_trip_of driver t = holds t.driver_id driver && is_set t.rating

abbrev pub prepend : Option ℕ → List ℕ → List ℕ
prepend none rs = rs
prepend (some r) rs = r ∷ rs

unfoldable pub ratings_of : List Trip → List ℕ
ratings_of [] = []
ratings_of (t ∷ ts) = prepend t.rating (ratings_of ts)

-- `getRatingsByDriver`.
unfoldable pub get_ratings_by_driver : Db → ℕ → List ℕ
unfolding ratings_of
get_ratings_by_driver db driver = ratings_of (select_all (rated_trip_of driver) db.trips)

-- `findByPhone`, `findById` of drivers, `findTaxi`.
abbrev pub driver_phone : ℕ → Driver → Bool
driver_phone phone d = d.phone == phone

abbrev pub driver_id_is : ℕ → Driver → Bool
driver_id_is i d = d.id == i

abbrev pub taxi_of : ℕ → Taxi → Bool
taxi_of driver t = holds t.driver_id driver

unfoldable pub find_driver_by_phone : Db → ℕ → Option Driver
find_driver_by_phone db phone = select_first (driver_phone phone) db.drivers

unfoldable pub find_driver_by_id : Db → ℕ → Option Driver
find_driver_by_id db i = select_first (driver_id_is i) db.drivers

unfoldable pub find_taxi : Db → ℕ → Option Taxi
find_taxi db driver = select_first (taxi_of driver) db.taxis

abbrev pub with_presence : Presence → Taxi → Taxi
with_presence s t = record t { status = s }

-- `setTaxiBusy`, if there is a taxi.
unfoldable pub set_taxi_busy : Db → Option Taxi → Db
set_taxi_busy db none = db
set_taxi_busy db (some taxi) = record db {
  taxis = update_where (λ t. t.id == taxi.id) (with_presence busy) db.taxis;
}

-- `if (trip.driver_id) resetTaxiOnline(trip.driver_id)`.
unfoldable pub reset_taxi_online : Db → Option ℕ → Db
reset_taxi_online db none = db
reset_taxi_online db (some zero) = db
reset_taxi_online db (some (suc d)) = record db {
  taxis = update_where (taxi_of (suc d)) (with_presence online) db.taxis;
}

abbrev pub emit : Db → Emit → Db
emit db e = record db { emits = e ∷ db.emits }

abbrev pub notify : Db → Notice → Db
notify db n = record db { notifications = n ∷ db.notifications }

abbrev other_trip : ℕ → Timer → Bool
other_trip i t = if t.trip_id == i then false else true

-- `clearTimer`.
unfoldable pub clear_timer : Db → ℕ → Db
clear_timer db i = record db { timers = select_all (other_trip i) db.timers }

-- A new request sets the timer of the trip; an earlier one has fired or was cleared.
unfoldable pub set_timer : Db → ℕ → ℕ → Db
set_timer db i driver = record db {
  timers = record { trip_id = i; driver_id = driver } ∷ select_all (other_trip i) db.timers;
}

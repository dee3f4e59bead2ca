-- ===== src/Trips/Matching.antt =====
-- The search for a driver: src/services/driverMatcher.js, and the request and rejection of a trip of
-- src/application/trips/useCases.js.
pub mod Nearest
pub mod Free
pub mod Requests
pub mod Search
use Prim.Native.String.{String}
use oncall_backend_private.Prelude.{
  ℕ, zero, suc, ◌+◌, ◌*◌, Bool, true, false, ◌&&◌, ◌||◌, not, Option, none, some, List, [], ◌∷◌,
  ◌++◌, ◌==◌, leb, if◌then◌else◌, includes,
}
use oncall_backend_private.Schema.{
  ℤ, pos, negsuc, Status, no_driver, PaymentMethod, cash, wallet, other_method, Presence, online,
  Approval, approved, Trip, Driver, Taxi, Timer, trip_request, new_trip, push_driver, trip_updated,
  waiting_driver, Db,
}
use oncall_backend_private.Fare.{round_div, get_fare_breakdown}
use oncall_backend_private.Trips.Rules.{
  TripRejection, missing_fields, bad_pickup_coords, bad_dest_coords, reject_invalid,
  reject_no_driver, server_error, coord_truthy, coord_or_zero, holds, is_waiting,
  next_rejected_list,
}
use oncall_backend_private.Trips.Repository.{
  find_by_id, update_trip, with_status, with_rejected, with_assigned, create, find_driver_by_phone,
  emit, clear_timer, set_timer,
}
use oncall_backend_private.Trips.Settlement.{Env}

abbrev pub is_online : Presence → Bool
is_online online = true
is_online _ = false

abbrev pub is_approved : Approval → Bool
is_approved approved = true
is_approved _ = false

-- The WHERE clause of the search: online, approved, not excluded.
unfoldable pub is_eligible : List ℕ → Driver → Bool
is_eligible excluded d =
    is_online d.status && is_approved d.approval_status && not (includes excluded d.id)

abbrev pub serves : Driver → Taxi → Bool
serves d t = holds t.driver_id d.id && is_online t.status

-- A row of the join: a driver with the position of a taxi.
pub record Candidate : Type 0 where
  pub driver : Driver
  pub taxi_lat : Option ℤ
  pub taxi_lng : Option ℤ

unfoldable pub rows_of_driver : Driver → List Taxi → List Candidate
rows_of_driver d [] = []
rows_of_driver d (t ∷ ts) =
    let rest = rows_of_driver d ts in
    if serves d t then record { driver = d; taxi_lat = t.lat; taxi_lng = t.lng } ∷ rest else rest

unfoldable pub online_drivers : List ℕ → List Driver → List Taxi → List Candidate
online_drivers excluded [] taxis = []
online_drivers excluded (d ∷ ds) taxis =
    let rest = online_drivers excluded ds taxis in
    if is_eligible excluded d then rows_of_driver d taxis ++ rest else rest

-- `d.taxi_lat || d.lat`.
abbrev pub coord_or : Option ℤ → ℤ → ℤ
coord_or none c = c
coord_or (some (pos zero)) c = c
coord_or (some (pos (suc n))) c = pos (suc n)
coord_or (some (negsuc n)) c = negsuc n

unfoldable pub candidate_distance : Env → Option ℤ → Option ℤ → Candidate → ℕ
candidate_distance env lat lng c =
    env.distance (coord_or_zero lat) (coord_or_zero lng) (coord_or c.taxi_lat c.driver.lat)
      (coord_or c.taxi_lng c.driver.lng)

-- The head of the rows sorted by distance (a stable sort): the first of the least.
unfoldable pub closer : (Candidate → ℕ) → Candidate → Option Candidate → Candidate
closer measure c none = c
closer measure c (some best) = if leb (measure c) (measure best) then c else best

unfoldable pub nearest : (Candidate → ℕ) → List Candidate → Option Candidate
unfolding closer
nearest measure [] = none
nearest measure (c ∷ cs) = some (closer measure c (nearest measure cs))

abbrev pub first_row : List Candidate → Option Candidate
first_row [] = none
first_row (c ∷ cs) = some c

-- `findNearestDriver`: by distance if the pickup is known, else the first row.
unfoldable pub find_nearest_driver : Env → Db → Option ℤ → Option ℤ → List ℕ → Option Candidate
unfolding online_drivers
find_nearest_driver env db lat lng excluded =
    let rows = online_drivers excluded db.drivers db.taxis in
    if coord_truthy lat && coord_truthy lng
    then nearest (candidate_distance env lat lng) rows
    else first_row rows

abbrev push_request : Env → Db → ℕ → ℕ → Db
push_request env db i phone =
    if env.push_configured && not (env.driver_online phone)
    then emit db (push_driver phone i)
    else db

-- `sendRequestToDriver`: assign, tell the driver, start the 30 s timer.
unfoldable pub send_request_to_driver : Env → Db → ℕ → Driver → ℕ → Db
send_request_to_driver env db i d now =
    let asked =
      emit (emit (update_trip db i (with_assigned d.id now)) (trip_request i d.phone))
        (new_trip i) in
    set_timer (push_request env asked i d.phone) i d.id

-- What a rejection and a timeout share: ask the nearest driver left, or give the trip up.
unfoldable pub ask_next : Env → Db → ℕ → Option Candidate → ℕ → Db × Bool
unfolding send_request_to_driver
ask_next env db i (some c) now = (send_request_to_driver env db i c.driver now, true)
ask_next env db i none now =
    (emit (update_trip db i (with_status no_driver)) (trip_updated i no_driver), false)

unfoldable pub pass_on : Env → Db → ℕ → Trip → ℕ → ℕ → Db × Bool
unfolding ask_next
pass_on env db i trip driver_id now =
    let rejected = next_rejected_list trip.rejected_drivers driver_id in
    let excluded = update_trip db i (with_rejected rejected) in
    ask_next env excluded i
      (find_nearest_driver env excluded trip.pickup_lat trip.pickup_lng rejected) now

-- The passenger hears that the search goes on.
abbrev pub tell_searching : ℕ → Trip → Db × Bool → Db
tell_searching i trip (db, true) = emit db (trip_updated i trip.status)
tell_searching i trip (db, false) = db

abbrev pub expire_trip : Env → Db → Timer → ℕ → Option Trip → Db
expire_trip env db timer now none = db
expire_trip env db timer now (some trip) =
    if is_waiting trip.status
    then tell_searching timer.trip_id trip (pass_on env db timer.trip_id trip timer.driver_id now)
    else db

-- The callback of the timer. A trip that is no longer waiting is left alone.
unfoldable pub on_timeout : Env → Db → Timer → ℕ → Db
unfolding pass_on
on_timeout env db timer now = expire_trip env db timer now (find_by_id db timer.trip_id)

abbrev pub dispatch_to : Env → Db → ℕ → ℕ → Option Candidate → Db
dispatch_to env db i now none = emit db (trip_updated i no_driver)
dispatch_to env db i now (some c) = send_request_to_driver env db i c.driver now

-- `dispatchMatching`, for the trip and pickup of a new request.
unfoldable pub dispatch_matching : Env → Db → ℕ → Option ℤ → Option ℤ → ℕ → Db
dispatch_matching env db i lat lng now =
    dispatch_to env db i now (find_nearest_driver env db lat lng [])

-- A result of a use case: `{ ok: true, value }` or `{ ok: false, code }`.
pub data Outcome {ℓ} (A : Type ℓ) : Type ℓ where
  ok : A → Outcome A
  err : TripRejection → Outcome A

abbrev pub reject_by : Env → Db → ℕ → ℕ → Option Trip → Option Driver → Db × Outcome Bool
reject_by env db i now none d = (db, err reject_invalid)
reject_by env db i now (some trip) none =
    (db, if is_waiting trip.status then err reject_no_driver else err reject_invalid)
reject_by env db i now (some trip) (some d) =
    if is_waiting trip.status
    then (let (after, reassigned) = pass_on env (clear_timer db i) i trip d.id now in
        (after, ok reassigned))
    else (db, err reject_invalid)

-- `rejectTrip`; the value says whether another driver was asked.
unfoldable pub reject_trip : Env → Db → ℕ → ℕ → ℕ → Db × Outcome Bool
unfolding pass_on
reject_trip env db i actor_phone now =
    reject_by env db i now (find_by_id db i) (find_driver_by_phone db actor_phone)

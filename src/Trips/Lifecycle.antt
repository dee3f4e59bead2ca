-- ===== src/Trips/Lifecycle.antt =====
-- The lifecycle of a trip: `createTrip` and `updateTripStatus` of src/application/trips/useCases.js,
-- with the transactions and events of src/infrastructure/gateways/tripGateways.js.
pub mod Authority
pub mod Creation
pub mod Moves
pub mod Result
pub mod Race
pub mod Double
use Prim.Native.String.{String}
use oncall_backend_private.Prelude.{
  ℕ, zero, suc, ◌+◌, ◌*◌, Bool, true, false, ◌&&◌, ◌||◌, not, Option, none, some, List, [], ◌∷◌,
  ◌++◌, ◌==◌, leb, if◌then◌else◌,
}
use oncall_backend_private.Sql.{truthy}
use oncall_backend_private.Schema.{
  ℤ, pos, negsuc, Status, waiting_driver, accepted, arrived, in_progress, completed, cancelled,
  no_driver, unknown, PaymentMethod, cash, wallet, other_method, Trip, Driver, Taxi, trip_updated,
  trip_accepted, push_passenger, Db,
}
use oncall_backend_private.Fare.{round_div, get_fare_breakdown, settle_trip_duration, final_fare}
use oncall_backend_private.Trips.Rules.{
  TripRejection, ActorType, Gate, allowed, denied, invalid_status, trip_not_found, already_accepted,
  driver_not_found, not_trip_driver_start, not_trip_driver_complete, not_trip_driver_misc,
  missing_fields, bad_pickup_coords, bad_dest_coords, server_error, coord_truthy, coord_or_zero,
  holds, is_valid_status, state_transition_authorization, acceptance_policy, assigned_driver_policy,
  cancellation_policy,
}
use oncall_backend_private.Trips.Repository.{
  find_by_id, update_trip, with_status, started, finished, accept_by_driver, create,
  find_driver_by_phone, find_taxi, set_taxi_busy, reset_taxi_online, emit, clear_timer,
}
use oncall_backend_private.Trips.Settlement.{Env, settle_trip_distance, settle}
use oncall_backend_private.Trips.Matching.{Outcome, ok, err}

-- `validateCoords` of src/utils/helpers.js.
abbrev pub within : ℕ → ℤ → Bool
within bound (pos n) = leb n bound
within bound (negsuc n) = leb (suc n) bound

unfoldable pub validate_coords : Option ℤ → Option ℤ → Bool
validate_coords none lng = false
validate_coords (some lat) none = false
validate_coords (some lat) (some lng) = within 90000000 lat && within 180000000 lng

pub record TripRequest : Type 0 where
  pub actor_phone : ℕ
  pub pickup : Option String
  pub destination : Option String
  pub pickup_lat : Option ℤ
  pub pickup_lng : Option ℤ
  pub dest_lat : Option ℤ
  pub dest_lng : Option ℤ
  pub payment_method : Option PaymentMethod

abbrev pub method_or_cash : Option PaymentMethod → PaymentMethod
method_or_cash (some wallet) = wallet
method_or_cash _ = cash

abbrev pub bad_coords : Option ℤ → Option ℤ → Bool
bad_coords lat lng = (coord_truthy lat || coord_truthy lng) && not (validate_coords lat lng)

-- The estimate shown with the request: 0.75 KD unless all four coordinates are known.
unfoldable pub estimate_fare : Env → TripRequest → ℕ
estimate_fare env c =
    let km =
      env.distance (coord_or_zero c.pickup_lat) (coord_or_zero c.pickup_lng)
        (coord_or_zero c.dest_lat) (coord_or_zero c.dest_lng) in
    if coord_truthy c.pickup_lat
      && (coord_truthy c.pickup_lng && (coord_truthy c.dest_lat && coord_truthy c.dest_lng))
    then (get_fare_breakdown env.hour km (round_div (3 * km) 1000000)).total
    else 750

unfoldable pub insert_trip : Env → Db → TripRequest → String → String → Db × Outcome ℕ
insert_trip env db c pickup destination =
    let (after, i) =
      create db c.actor_phone pickup destination c.pickup_lat c.pickup_lng c.dest_lat c.dest_lng
        (estimate_fare env c) (method_or_cash c.payment_method) in
    (after, ok i)

-- The two coordinate checks, and the insertion; the value is the id of the new trip.
abbrev pub checked_insert : Env → Db → TripRequest → String → String → Db × Outcome ℕ
checked_insert env db c pickup destination =
    if bad_coords c.pickup_lat c.pickup_lng
    then (db, err bad_pickup_coords)
    else if bad_coords c.dest_lat c.dest_lng
    then (db, err bad_dest_coords)
    else insert_trip env db c pickup destination

abbrev pub given_texts : Env → Db → TripRequest → Option String → Option String → Db × Outcome ℕ
given_texts env db c (some (String.◌∷◌ a pickup)) (some (String.◌∷◌ b destination)) =
    checked_insert env db c (String.◌∷◌ a pickup) (String.◌∷◌ b destination)
given_texts env db c _ _ = (db, err missing_fields)

-- `createTrip`.
unfoldable pub create_trip : Env → Db → TripRequest → Db × Outcome ℕ
unfolding insert_trip validate_coords
create_trip env db c = given_texts env db c c.pickup c.destination

pub record StatusCommand : Type 0 where
  pub trip_id : ℕ
  pub status : Status
  pub actor_phone : ℕ
  pub actor_type : ActorType

-- What a branch of `updateTripStatus` does to the database, and the code it refuses with.
abbrev pub Branch : Type 0
Branch = Db × Outcome (Unit {0})

abbrev pub gated : Db → Gate → Branch → Branch
gated db allowed go = go
gated db (denied code) go = (db, err code)

-- After the conditional UPDATE: nothing changed means that another driver was first.
abbrev pub claimed : ℕ → Option Taxi → Db × ℕ → Branch
claimed i taxi (db, zero) = (db, err already_accepted)
claimed i taxi (db, suc n) = (clear_timer (set_taxi_busy db taxi) i, ok tt)

abbrev pub claim : Db → ℕ → Option Driver → Branch
claim db i none = (db, err driver_not_found)
claim db i (some d) = let taxi = find_taxi db d.id in claimed i taxi (accept_by_driver db i d taxi)

unfoldable pub accept_branch : Db → ℕ → Trip → ℕ → Branch
unfolding accept_by_driver acceptance_policy
accept_branch db i trip phone =
    gated db (acceptance_policy trip) (claim db i (find_driver_by_phone db phone))

unfoldable pub start_branch : Db → ℕ → Trip → ℕ → ℕ → Branch
start_branch db i trip phone now =
    gated db (assigned_driver_policy trip (find_driver_by_phone db phone) not_trip_driver_start)
      (update_trip db i (started now), ok tt)

-- Settle first the trip row, then the payment, then the taxi.
unfoldable pub complete_trip_row : Env → Db → ℕ → Trip → ℕ → Db
complete_trip_row env db i trip now =
    let distance = settle_trip_distance env trip.route trip in
    let minutes = settle_trip_duration trip.start_time now in
    let fare = final_fare env.hour distance minutes trip.estimated_fare in
    reset_taxi_online
      (settle (update_trip db i (finished fare distance minutes)) i trip trip.user_phone fare)
      trip.driver_id

unfoldable pub complete_branch : Env → Db → ℕ → Trip → ℕ → ℕ → Branch
unfolding complete_trip_row
complete_branch env db i trip phone now =
    gated db (assigned_driver_policy trip (find_driver_by_phone db phone) not_trip_driver_complete)
      (complete_trip_row env db i trip now, ok tt)

-- The owner is recognised before any driver is looked up.
abbrev pub cancelling_driver : Db → Trip → ℕ → Option Driver
cancelling_driver db trip phone =
    if holds trip.user_phone phone then none else find_driver_by_phone db phone

unfoldable pub cancel_branch : Db → ℕ → Trip → ℕ → Branch
cancel_branch db i trip phone =
    gated db (cancellation_policy trip phone (cancelling_driver db trip phone))
      (reset_taxi_online (update_trip db i (with_status cancelled)) trip.driver_id, ok tt)

unfoldable pub misc_branch : Db → ℕ → Trip → ℕ → Status → Branch
misc_branch db i trip phone status =
    gated db (assigned_driver_policy trip (find_driver_by_phone db phone) not_trip_driver_misc)
      (update_trip db i (with_status status), ok tt)

-- The ladder of `updateTripStatus` over the wanted status.
unfoldable pub branch : Env → Db → StatusCommand → ℕ → Trip → Status → Branch
branch env db c now trip accepted = accept_branch db c.trip_id trip c.actor_phone
branch env db c now trip in_progress = start_branch db c.trip_id trip c.actor_phone now
branch env db c now trip completed = complete_branch env db c.trip_id trip c.actor_phone now
branch env db c now trip cancelled = cancel_branch db c.trip_id trip c.actor_phone
branch env db c now trip status = misc_branch db c.trip_id trip c.actor_phone status

abbrev pub is_pushed : Status → Bool
is_pushed accepted = true
is_pushed arrived = true
is_pushed completed = true
is_pushed cancelled = true
is_pushed _ = false

-- `pushStatusChange`, for a passenger that no socket reaches.
unfoldable pub push_status_change : Env → Db → Option ℕ → Status → Db
push_status_change env db none status = db
push_status_change env db (some zero) status = db
push_status_change env db (some (suc p)) status =
    if env.push_configured && (not (env.passenger_online (suc p)) && is_pushed status)
    then emit db (push_passenger (suc p) status)
    else db

-- `if (status === ACCEPTED && updated.user_phone) eventGateway.accepted(…)`.
abbrev pub tell_accepted : Db → ℕ → Option ℕ → Status → Db
tell_accepted db i (some (suc p)) accepted = emit db (trip_accepted i (suc p))
tell_accepted db i phone status = db

unfoldable pub announce : Env → Db → ℕ → Status → Trip → Db
unfolding push_status_change
announce env db i status updated =
    push_status_change env
      (tell_accepted (emit db (trip_updated i updated.status)) i updated.user_phone status)
      updated.user_phone status

-- What follows a branch that was not refused: read the row again, tell everyone.
abbrev pub conclude : Env → Db → ℕ → Status → Option Trip → Db × Outcome Trip
conclude env db i status none = (db, err server_error)
conclude env db i status (some updated) = (announce env db i status updated, ok updated)

abbrev pub answer : Env → ℕ → Status → Branch → Db × Outcome Trip
answer env i status (db, err code) = (db, err code)
answer env i status (db, ok _) = conclude env db i status (find_by_id db i)

abbrev pub with_trip : Env → Db → StatusCommand → ℕ → Option Trip → Db × Outcome Trip
with_trip env db c now none = (db, err trip_not_found)
with_trip env db c now (some trip) =
    answer env c.trip_id c.status (branch env db c now trip c.status)

abbrev pub authorized : Db → Gate → Db × Outcome Trip → Db × Outcome Trip
authorized db allowed go = go
authorized db (denied code) go = (db, err code)

-- `updateTripStatus`.
unfoldable pub update_trip_status : Env → Db → StatusCommand → ℕ → Db × Outcome Trip
update_trip_status env db c now =
    if is_valid_status c.status
    then authorized db (state_transition_authorization c.status c.actor_type)
        (with_trip env db c now (find_by_id db c.trip_id))
    else (db, err invalid_status)

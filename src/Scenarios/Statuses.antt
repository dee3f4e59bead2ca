-- ===== src/Scenarios/Statuses.antt =====
-- Scenarios of the trip lifecycle.
use oncall_backend_private.Prelude.{none, arith, ◌≡◌, ◌⊎◌, refl, ◌-◌, true, false, some, [], ◌∷◌}
use oncall_backend_private.Schema.{pos, arrived, completed, cancelled, Trip}
use oncall_backend_private.Wallet.{get_balance}
use oncall_backend_private.Trips.Rules.{driver, passenger, not_cancellable, is_driver_only}
use oncall_backend_private.Trips.Repository.{find_by_id, find_taxi, accepted_by, with_status}
use oncall_backend_private.Trips.Matching.{ok}
use oncall_backend_private.Trips.Lifecycle.Creation.{IsNumbered, IsNewTrip, trip_created}
use oncall_backend_private.Trips.Lifecycle.{
  TripRequest, create_trip, StatusCommand, claim, update_trip_status,
}
use oncall_backend_private.Trips.Lifecycle.Moves.{may_move}
use oncall_backend_private.Trips.Lifecycle.Race.{run_claims, one_claim_wins}
use oncall_backend_private.Trips.Lifecycle.Result.{status_changed, refused_unchanged}
use oncall_backend_private.Trips.Lifecycle.Authority.{MayAsk, status_authority}
use oncall_backend_private.Trips.Lifecycle.Double.{fare_of, completion_charges}
use oncall_backend_private.Scenarios.{
  city, near, far, town, waiting_trip, running_trip, completed_trip,
}

one_claim_wins_example :
    let (after, winners) = run_claims town 1 (near ∷ far ∷ []) in
    (winners ≡ 1)
    × (after ≡ (claim town 1 (some near)).0)
    × (find_by_id after 1 ≡ some (accepted_by near (find_taxi town 7) waiting_trip))
unfolding find_by_id oncall_backend_private.Sql.select_first
one_claim_wins_example = one_claim_wins town 1 waiting_trip near (far ∷ []) refl refl

abbrev arrive : StatusCommand
arrive = record { trip_id = 2; status = arrived; actor_phone = 70; actor_type = driver }

abbrev at_door : Trip
at_door = with_status arrived running_trip

status_changed_example :
    (find_by_id (update_trip_status city town arrive 9).0 2 ≡ some at_door)
    × (arrived ≡ arrived)
    × (may_move running_trip.status arrived ≡ true)
unfolding find_by_id oncall_backend_private.Sql.select_first update_trip_status
    oncall_backend_private.Trips.Rules.state_transition_authorization
    oncall_backend_private.Trips.Lifecycle.branch oncall_backend_private.Trips.Lifecycle.misc_branch
    oncall_backend_private.Trips.Rules.assigned_driver_policy
    oncall_backend_private.Trips.Repository.find_driver_by_phone
    oncall_backend_private.Trips.Repository.update_trip oncall_backend_private.Sql.update_where
status_changed_example = status_changed city town arrive 9 running_trip at_door refl refl

status_authority_example :
    ((is_driver_only arrived ≡ false) ⊎ (driver ≡ driver)) × MayAsk town 70 running_trip arrived
unfolding find_by_id oncall_backend_private.Sql.select_first update_trip_status
    oncall_backend_private.Trips.Rules.state_transition_authorization
    oncall_backend_private.Trips.Lifecycle.branch oncall_backend_private.Trips.Lifecycle.misc_branch
    oncall_backend_private.Trips.Rules.assigned_driver_policy
    oncall_backend_private.Trips.Repository.find_driver_by_phone
    oncall_backend_private.Trips.Repository.update_trip oncall_backend_private.Sql.update_where
status_authority_example = status_authority city town arrive 9 running_trip at_door refl refl

abbrev late_cancel : StatusCommand
late_cancel = record { trip_id = 3; status = cancelled; actor_phone = 50; actor_type = passenger }

refused_unchanged_example : (update_trip_status city town late_cancel 9).0 ≡ town
unfolding update_trip_status oncall_backend_private.Trips.Rules.state_transition_authorization
    find_by_id oncall_backend_private.Sql.select_first oncall_backend_private.Trips.Lifecycle.branch
    oncall_backend_private.Trips.Lifecycle.cancel_branch
    oncall_backend_private.Trips.Rules.cancellation_policy
refused_unchanged_example = refused_unchanged city town late_cancel 9 not_cancellable refl

abbrev complete_again : StatusCommand
complete_again = record { trip_id = 3; status = completed; actor_phone = 70; actor_type = driver }

completion_charges_example :
    (v : Trip) × ((update_trip_status city town complete_again 9).1 ≡ ok v)
    × (get_balance (update_trip_status city town complete_again 9).0 50
        ≡ some (5000 - fare_of city completed_trip 9))
unfolding find_by_id oncall_backend_private.Sql.select_first
    oncall_backend_private.Trips.Repository.find_driver_by_phone get_balance
    oncall_backend_private.Fare.final_fare
    oncall_backend_private.Trips.Settlement.settle_trip_distance
    oncall_backend_private.Trips.Settlement.route_distance
    oncall_backend_private.Fare.settle_trip_duration
completion_charges_example =
    completion_charges city town complete_again 9 49 5000 completed_trip near refl refl refl refl
      refl refl refl refl (omega arith)

abbrev ride_home : TripRequest
ride_home = record {
  actor_phone = 50;
  pickup = some "souq";
  destination = some "port";
  pickup_lat = some (pos 10);
  pickup_lng = some (pos 10);
  dest_lat = none;
  dest_lng = none;
  payment_method = none;
}

trip_created_example :
    (4 ≡ town.next_trip)
    × ((t : Trip) × (find_by_id (create_trip city town ride_home).0 4 ≡ some t)
        × IsNewTrip city ride_home t)
    × (find_by_id (create_trip city town ride_home).0 1 ≡ find_by_id town 1)
    × IsNumbered (create_trip city town ride_home).0
unfolding create_trip oncall_backend_private.Trips.Repository.create
trip_created_example =
    trip_created city town ride_home 4 1 (omega arith, (omega arith, (omega arith, tt))) refl refl

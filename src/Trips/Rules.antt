-- ===== src/Trips/Rules.antt =====
-- The value objects and policies of the trips domain: src/domain/trips/tripValues.js and
-- src/domain/trips/tripPolicies.js.
use oncall_backend_private.Prelude.{
  ℕ, zero, suc, Bool, true, false, ◌&&◌, ◌||◌, not, Option, none, some, List, [], ◌∷◌, ◌++◌, ltb,
  ◌==◌, if◌then◌else◌,
}
use oncall_backend_private.Schema.{
  ℤ, pos, negsuc, Status, waiting_driver, accepted, arrived, in_progress, completed, no_driver,
  unknown, Trip, Driver,
}

pub data TripRejection : Type 0 where
  invalid_status driver_only trip_not_found already_accepted driver_not_found : TripRejection
  not_trip_driver_start not_trip_driver_complete not_cancellable not_owner_cancel : TripRejection
  not_trip_driver_misc missing_fields bad_pickup_coords bad_dest_coords rating_range : TripRejection
  not_passenger_rater not_driver_rater already_rated not_completed_for_rating : TripRejection
  location_forbidden access_forbidden reject_invalid reject_no_driver rating_bare : TripRejection
  server_error : TripRejection

-- `{ allowed, code }`.
pub data Gate : Type 0 where
  allowed : Gate
  denied : TripRejection → Gate

pub data ActorType : Type 0 where
  passenger driver other_type : ActorType

-- `isValidStatus`.
abbrev pub is_valid_status : Status → Bool
is_valid_status no_driver = false
is_valid_status unknown = false
is_valid_status _ = true

-- `isDriverOnly`.
abbrev pub is_driver_only : Status → Bool
is_driver_only accepted = true
is_driver_only arrived = true
is_driver_only in_progress = true
is_driver_only completed = true
is_driver_only _ = false

-- `isCancellable`.
abbrev pub is_cancellable : Status → Bool
is_cancellable waiting_driver = true
is_cancellable accepted = true
is_cancellable arrived = true
is_cancellable in_progress = true
is_cancellable _ = false

abbrev pub is_waiting : Status → Bool
is_waiting waiting_driver = true
is_waiting _ = false

abbrev pub is_in_progress : Status → Bool
is_in_progress in_progress = true
is_in_progress _ = false

abbrev pub is_completed : Status → Bool
is_completed completed = true
is_completed _ = false

abbrev pub is_driver_type : ActorType → Bool
is_driver_type driver = true
is_driver_type _ = false

-- `column === value` for a nullable column.
abbrev pub holds : Option ℕ → ℕ → Bool
holds none n = false
holds (some m) n = m == n

-- A coordinate as a truth value: null and 0 are false.
abbrev pub coord_truthy : Option ℤ → Bool
coord_truthy none = false
coord_truthy (some (pos zero)) = false
coord_truthy (some _) = true

-- `coordinate || null`, and the number that a null coordinate counts as.
abbrev pub coord_or_null : Option ℤ → Option ℤ
coord_or_null none = none
coord_or_null (some (pos zero)) = none
coord_or_null (some (pos (suc n))) = some (pos (suc n))
coord_or_null (some (negsuc n)) = some (negsuc n)

abbrev pub coord_or_zero : Option ℤ → ℤ
coord_or_zero none = pos 0
coord_or_zero (some c) = c

-- `stateTransitionAuthorization`.
unfoldable pub state_transition_authorization : Status → ActorType → Gate
state_transition_authorization status actor =
    if is_driver_only status && not (is_driver_type actor) then denied driver_only else allowed

-- `acceptancePolicy`.
unfoldable pub acceptance_policy : Trip → Gate
acceptance_policy trip = if is_waiting trip.status then allowed else denied already_accepted

abbrev pub drives : Option Driver → Trip → Bool
drives none trip = false
drives (some d) trip = holds trip.driver_id d.id

-- `assignedDriverPolicy`.
unfoldable pub assigned_driver_policy : Trip → Option Driver → TripRejection → Gate
assigned_driver_policy trip d code = if drives d trip then allowed else denied code

-- `cancellationPolicy`. No driver of that phone is `undefined`, which no driver_id equals.
unfoldable pub cancellation_policy : Trip → ℕ → Option Driver → Gate
cancellation_policy trip actor_phone cancel_driver =
    if not (is_cancellable trip.status)
    then denied not_cancellable
    else if not (holds trip.user_phone actor_phone) && not (drives cancel_driver trip)
    then denied not_owner_cancel
    else allowed

-- `nextRejectedList`.
unfoldable pub next_rejected_list : List ℕ → ℕ → List ℕ
next_rejected_list rejected driver_id = rejected ++ driver_id ∷ []

pub record Viewer : Type 0 where
  pub is_admin : Bool
  pub phone : ℕ
  pub driver_id : Option ℕ

abbrev pub same_driver : Option ℕ → Option ℕ → Bool
same_driver none d = false
same_driver (some n) d = holds d n

-- `canAccessTrip`.
unfoldable pub can_access_trip : Viewer → Trip → Bool
can_access_trip user trip =
    user.is_admin || holds trip.user_phone user.phone || same_driver user.driver_id trip.driver_id

abbrev pub bad_rating : ℕ → Bool
bad_rating rating = ltb rating 1 || ltb 5 rating

abbrev pub is_set : Option ℕ → Bool
is_set none = false
is_set (some _) = true

-- `ratingPolicy`, for whole-numbered ratings.
unfoldable pub rating_policy : ℕ → Trip → ℕ → Bool → Option ℕ → Gate
rating_policy rating trip actor_phone is_driver_rater existing_rating =
    if bad_rating rating
    then denied rating_range
    else if not is_driver_rater && not (holds trip.user_phone actor_phone)
    then denied not_passenger_rater
    else if is_set existing_rating
    then denied already_rated
    else if not (is_completed trip.status)
    then denied not_completed_for_rating
    else allowed

-- ===== src/Scooters/Usage.antt =====
-- The use cases of src/application/scooters/useCases.js. The list of scooters and its cache are left
-- out. A statement that is sent succeeds, so that the transaction of endRide commits.
use Prim.Native.String.{String}
use oncall_backend_private.Prelude.{
  ℕ, zero, suc, Bool, true, false, ◌&&◌, ◌||◌, not, Option, none, some, List, ◌==◌, if◌then◌else◌,
  take, reverse, keep,
}
use oncall_backend_private.Sql.{select_first, update_where}
use oncall_backend_private.Schema.{ℤ, online, User, scooter_unlocked}
use oncall_backend_private.Wallet.{has_phone, charge, balance_or_zero, get_balance}
use oncall_backend_private.Trips.Repository.{notify, with_presence}
use oncall_backend_private.Trips.Lifecycle.{validate_coords}
use oncall_backend_private.Scooters.Rules.{
  Scooter, Ride, Fleet, ScooterRejection, Answer, unlock_policy, lock_policy, Settlement,
  settle_ride, live_fare, available, scooter_not_found, user_not_found, unlock_race_lost,
  invalid_coords, done, denied,
}
use oncall_backend_private.Scooters.Repository.{
  is_scooter, ridden_by, find_scooter, set_riding, create_ride, set_available, end_ride_record,
  create_scooter,
}

abbrev pub unlocked : ℕ → ℕ → ℕ → Fleet × ℕ → Fleet × Answer ℕ
unlocked i phone start (fleet, zero) = (fleet, denied unlock_race_lost)
unlocked i phone start (fleet, suc n) =
    let (after, ride) = create_ride fleet i phone start in
    (
      record after {
        db = notify after.db (record { phone = phone; type = scooter_unlocked; trip_id = none });
      },
      done ride,
    )

abbrev pub gate_unlock : Fleet → ℕ → ℕ → ℕ → Option ScooterRejection → Fleet × Answer ℕ
gate_unlock fleet i phone now (some code) = (fleet, denied code)
gate_unlock fleet i phone now none = unlocked i phone now (set_riding fleet i phone now)

abbrev pub unlock_by : Fleet → ℕ → ℕ → ℕ → Option Scooter → Option User → Fleet × Answer ℕ
unlock_by fleet i phone now none u = (fleet, denied scooter_not_found)
unlock_by fleet i phone now (some s) none = (fleet, denied user_not_found)
unlock_by fleet i phone now (some s) (some u) =
    gate_unlock fleet i phone now (unlock_policy s u.balance)

-- `unlockScooter`; the value is the id of the ride.
unfoldable pub unlock_scooter : Fleet → ℕ → ℕ → ℕ → Fleet × Answer ℕ
unlock_scooter fleet i actor_phone now =
    unlock_by fleet i actor_phone now (find_scooter fleet i)
      (select_first (has_phone actor_phone) fleet.db.users)

pub record Receipt : Type 0 where
  pub duration : ℕ
  pub fare : ℕ
  pub new_balance : ℕ

abbrev pub start_or : Option ℕ → ℕ → ℕ
start_or none t = t
start_or (some zero) t = t
start_or (some (suc n)) t = suc n

-- The settlement that endRide computes for a scooter.
unfoldable pub settlement_of : Scooter → ℕ → Settlement
settlement_of s now = settle_ride (start_or s.ride_start_time now) now s.battery

-- The transaction of endRide: the scooter back, the ride closed, the fare charged.
unfoldable pub close_ride : Fleet → ℕ → ℕ → Option ℤ → Option ℤ → ℕ → Scooter → Fleet
close_ride fleet i phone end_lat end_lng now s =
    let settled = settlement_of s now in
    let back = set_available fleet i settled.new_battery end_lat end_lng s.lat s.lng in
    let recorded =
      end_ride_record back i phone now settled.duration_minutes settled.fare end_lat end_lng in
    record recorded { db = (charge recorded.db phone settled.fare).0 }

abbrev pub gate_end :
    Fleet
    → ℕ
    → ℕ
    → Option ℤ
    → Option ℤ
    → ℕ
    → Scooter
    → Option ScooterRejection
    → Fleet × Answer Receipt
gate_end fleet i phone end_lat end_lng now s (some code) = (fleet, denied code)
gate_end fleet i phone end_lat end_lng now s none =
    let after = close_ride fleet i phone end_lat end_lng now s in
    let settled = settlement_of s now in
    (
      after,
      done (record {
        duration = settled.duration_minutes;
        fare = settled.fare;
        new_balance = balance_or_zero (get_balance after.db phone);
      }),
    )

abbrev pub end_by :
    Fleet → ℕ → ℕ → Option ℤ → Option ℤ → ℕ → Option Scooter → Fleet × Answer Receipt
end_by fleet i phone end_lat end_lng now none = (fleet, denied scooter_not_found)
end_by fleet i phone end_lat end_lng now (some s) =
    gate_end fleet i phone end_lat end_lng now s (lock_policy s phone)

-- `endRide`.
unfoldable pub end_ride : Fleet → ℕ → ℕ → Option ℤ → Option ℤ → ℕ → Fleet × Answer Receipt
end_ride fleet i actor_phone end_lat end_lng now =
    end_by fleet i actor_phone end_lat end_lng now (find_scooter fleet i)

-- `getHistory`: the newest 20 rides of the actor.
unfoldable pub get_history : Fleet → ℕ → List Ride
get_history fleet phone = take 20 (reverse (keep (λ (r : Ride). r.user_phone == phone) fleet.rides))

abbrev pub live : ℕ → Scooter → Scooter × (ℕ × ℕ)
live now s = (s, live_fare (start_or s.ride_start_time now) now)

-- `getActive`.
unfoldable pub get_active : Fleet → ℕ → ℕ → Option (Scooter × (ℕ × ℕ))
get_active fleet phone now = active_of (select_first (ridden_by phone) fleet.scooters)
  where
    active_of : Option Scooter → Option (Scooter × (ℕ × ℕ))
    active_of none = none
    active_of (some s) = some (live now s)

abbrev pub is_given : Option ℤ → Bool
is_given none = false
is_given (some c) = true

-- `addScooter`.
unfoldable pub add_scooter :
    Fleet → String → String → Option ℤ → Option ℤ → Option ℕ → Fleet × Answer ℕ
unfolding create_scooter
add_scooter fleet name code lat lng battery =
    if (is_given lat || is_given lng) && not (validate_coords lat lng)
    then (fleet, denied invalid_coords)
    else (let (after, id) = create_scooter fleet name code lat lng battery in (after, done id))

-- `deleteScooter`, `resetScooters`.
unfoldable pub delete_scooter : Fleet → ℕ → Fleet
delete_scooter fleet i = record fleet { scooters = keep (λ s. not (is_scooter i s)) fleet.scooters }

unfoldable pub reset_scooters : Fleet → Fleet
reset_scooters fleet = record fleet {
  scooters = update_where (λ s. true) (λ s. record s { status = available }) fleet.scooters;
  db = record fleet.db { taxis = update_where (λ t. true) (with_presence online) fleet.db.taxis };
}

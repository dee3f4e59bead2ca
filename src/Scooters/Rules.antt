-- ===== src/Scooters/Rules.antt =====
-- The tables of the scooters, and the policies of src/domain/scooters/scooterPolicies.js and
-- src/domain/scooters/scooterValues.js.
use Prim.Native.String.{String}
use oncall_backend_private.Prelude.{
  ℕ, ◌-◌, ◌*◌, max, min, Bool, true, false, not, Option, none, some, List, ltb, leb, if◌then◌else◌,
}
use oncall_backend_private.Schema.{ℤ, Db}
use oncall_backend_private.Fare.{round_div}
use oncall_backend_private.Trips.Rules.{holds}

pub data ScooterStatus : Type 0 where
  available riding : ScooterStatus

pub record Scooter : Type 0 where
  pub id : ℕ
  pub name : String
  pub scooter_code : String
  pub lat : ℤ
  pub lng : ℤ
  pub battery : ℕ
  pub status : ScooterStatus
  pub current_user_phone : Option ℕ
  pub ride_start_time : Option ℕ
  pub total_rentals : ℕ

pub data RideStatus : Type 0 where
  active finished : RideStatus

pub record Ride : Type 0 where
  pub id : ℕ
  pub scooter_id : ℕ
  pub user_phone : ℕ
  pub start_time : ℕ
  pub end_time : Option ℕ
  pub duration_minutes : Option ℕ
  pub fare : Option ℕ
  pub end_lat : Option ℤ
  pub end_lng : Option ℤ
  pub status : RideStatus

-- The tables of the scooters beside those of the rest.
pub record Fleet : Type 0 where
  pub db : Db
  pub scooters : List Scooter
  pub next_scooter : ℕ
  pub rides : List Ride
  pub next_ride : ℕ

pub data ScooterRejection : Type 0 where
  scooter_not_found user_not_found not_available insufficient_balance low_battery : ScooterRejection
  unlock_race_lost not_your_scooter invalid_coords : ScooterRejection

pub data Answer {ℓ} (A : Type ℓ) : Type ℓ where
  done : A → Answer A
  denied : ScooterRejection → Answer A

-- `isAvailable`.
abbrev pub is_available : ScooterStatus → Bool
is_available available = true
is_available riding = false

abbrev pub is_riding : ScooterStatus → Bool
is_riding available = false
is_riding riding = true

-- `unlockPolicy`: `none` allows. 500 fils are 0.5 KD, 10 is the least battery.
unfoldable pub unlock_policy : Scooter → ℕ → Option ScooterRejection
unlock_policy scooter balance =
    if not (is_available scooter.status)
    then some not_available
    else if ltb balance 500
    then some insufficient_balance
    else if not (leb 10 scooter.battery)
    then some low_battery
    else none

-- `lockPolicy`.
unfoldable pub lock_policy : Scooter → ℕ → Option ScooterRejection
lock_policy scooter actor_phone =
    if holds scooter.current_user_phone actor_phone then none else some not_your_scooter

pub record Settlement : Type 0 where
  pub duration_minutes : ℕ
  pub fare : ℕ
  pub new_battery : ℕ

-- `settleRide`. Where a difference is cut off at 0, the maximum that follows takes over, as it does in
-- the source for a negative one.
unfoldable pub settle_ride : ℕ → ℕ → ℕ → Settlement
settle_ride start_time end_time battery =
    let minutes = max 1 (round_div (end_time - start_time) 60000) in
    record {
      duration_minutes = minutes;
      fare = max 500 (minutes * 50);
      new_battery = max 5 (battery - min (battery - 5) (round_div minutes 2));
    }

-- `liveFare`, for a time that is not before the start.
unfoldable pub live_fare : ℕ → ℕ → ℕ × ℕ
live_fare start_time now =
    let minutes = round_div (now - start_time) 60000 in (minutes, max 500 (minutes * 50))

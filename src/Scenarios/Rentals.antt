-- ===== src/Scenarios/Rentals.antt =====
-- Scenarios of the scooters.
use oncall_backend_private.Prelude.{◌≡◌, refl, none, some, [], ◌∷◌}
use oncall_backend_private.Sql.{select_first}
use oncall_backend_private.Schema.{pos}
use oncall_backend_private.Scooters.Rules.{
  Scooter, Fleet, unlock_race_lost, ScooterRejection, Ride, available, riding, done, denied,
  is_available, settle_ride,
}
use oncall_backend_private.Scooters.Repository.{taken_by, new_ride, returned, find_scooter}
use oncall_backend_private.Scooters.Usage.{Receipt, unlock_scooter}
use oncall_backend_private.Scooters.Unlock.{unlock_excludes}
use oncall_backend_private.Scooters.Rivals.{calls, resumes, rival, rivals}
use oncall_backend_private.Scenarios.{town}

abbrev parked : Scooter
parked = record {
  id = 4;
  name = "one";
  scooter_code = "S4";
  lat = pos 1;
  lng = pos 2;
  battery = 80;
  status = available;
  current_user_phone = none;
  ride_start_time = none;
  total_rentals = 0;
}

abbrev ridden : Scooter
ridden = record parked {
  id = 5;
  status = riding;
  current_user_phone = some 50;
  ride_start_time = some 60000;
}

abbrev park : Fleet
park = record {
  db = town;
  scooters = parked ∷ ridden ∷ [];
  next_scooter = 6;
  rides = [];
  next_ride = 1;
}

unlock_excludes_example :
    let after = rivals (unlock_scooter park 4 50 9).0 (resumes 4 52 9 ∷ calls 5 53 9 ∷ []) in
    ((s : Scooter) × (find_scooter after 4 ≡ some (taken_by 50 9 s)))
    × ((c : ScooterRejection) × (rival after (calls 4 51 10) ≡ (after, denied c)))
    × (rival after (resumes 4 51 10) ≡ (after, denied unlock_race_lost))
unfolding unlock_scooter find_scooter select_first
    oncall_backend_private.Scooters.Rules.unlock_policy
    oncall_backend_private.Scooters.Repository.set_riding oncall_backend_private.Sql.changes
    oncall_backend_private.Scooters.Repository.create_ride
unlock_excludes_example =
    unlock_excludes park 4 50 9 1 (resumes 4 52 9 ∷ calls 5 53 9 ∷ []) 51 10 refl

abbrev receipt : Receipt
receipt = record { duration = 2; fare = 500; new_balance = 4500 }

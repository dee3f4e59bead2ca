-- ===== src/Scooters/Repository.antt =====
-- The statements of src/repositories/ScooterRepository.js.
use Prim.Native.String.{String}
use oncall_backend_private.Prelude.{
  ℕ, zero, suc, Bool, true, false, ◌&&◌, Option, none, some, [], ◌∷◌, ◌++◌, ◌==◌,
}
use oncall_backend_private.Sql.{select_first, update_where, changes}
use oncall_backend_private.Schema.{ℤ, pos, negsuc}
use oncall_backend_private.Trips.Rules.{holds}
use oncall_backend_private.Scooters.Rules.{
  Scooter, RideStatus, Ride, Fleet, is_available, is_riding, available, riding, active, finished,
}

abbrev pub is_scooter : ℕ → Scooter → Bool
is_scooter i s = s.id == i

abbrev pub is_free_scooter : ℕ → Scooter → Bool
is_free_scooter i s = is_scooter i s && is_available s.status

abbrev pub ridden_by : ℕ → Scooter → Bool
ridden_by phone s = holds s.current_user_phone phone && is_riding s.status

unfoldable pub find_scooter : Fleet → ℕ → Option Scooter
find_scooter fleet i = select_first (is_scooter i) fleet.scooters

abbrev pub taken_by : ℕ → ℕ → Scooter → Scooter
taken_by phone start s = record s {
  status = riding;
  current_user_phone = some phone;
  ride_start_time = some start;
}

-- `setRiding`: the UPDATE tests the status itself, and reports how many rows it changed.
unfoldable pub set_riding : Fleet → ℕ → ℕ → ℕ → Fleet × ℕ
set_riding fleet i phone start = (
  record fleet {
    scooters = update_where (is_free_scooter i) (taken_by phone start) fleet.scooters;
  },
  changes (is_free_scooter i) fleet.scooters,
)

abbrev pub new_ride : ℕ → ℕ → ℕ → ℕ → Ride
new_ride id i phone start = record {
  id = id;
  scooter_id = i;
  user_phone = phone;
  start_time = start;
  end_time = none;
  duration_minutes = none;
  fare = none;
  end_lat = none;
  end_lng = none;
  status = active;
}

-- `createRide`.
unfoldable pub create_ride : Fleet → ℕ → ℕ → ℕ → Fleet × ℕ
create_ride fleet i phone start = (
  record fleet {
    rides = fleet.rides ++ new_ride fleet.next_ride i phone start ∷ [];
    next_ride = suc fleet.next_ride;
  },
  fleet.next_ride,
)

-- `end || current`, and `end || null`.
abbrev pub place_or : Option ℤ → ℤ → ℤ
place_or none c = c
place_or (some (pos zero)) c = c
place_or (some (pos (suc n))) c = pos (suc n)
place_or (some (negsuc n)) c = negsuc n

abbrev pub place_or_null : Option ℤ → Option ℤ
place_or_null none = none
place_or_null (some (pos zero)) = none
place_or_null (some (pos (suc n))) = some (pos (suc n))
place_or_null (some (negsuc n)) = some (negsuc n)

-- `setAvailable`.
abbrev pub returned : ℕ → Option ℤ → Option ℤ → ℤ → ℤ → Scooter → Scooter
returned battery end_lat end_lng lat lng s = record s {
  status = available;
  current_user_phone = none;
  ride_start_time = none;
  battery = battery;
  lat = place_or end_lat lat;
  lng = place_or end_lng lng;
  total_rentals = suc s.total_rentals;
}

unfoldable pub set_available : Fleet → ℕ → ℕ → Option ℤ → Option ℤ → ℤ → ℤ → Fleet
set_available fleet i battery end_lat end_lng lat lng = record fleet {
  scooters = update_where (is_scooter i) (returned battery end_lat end_lng lat lng) fleet.scooters;
}

abbrev pub is_active : RideStatus → Bool
is_active active = true
is_active finished = false

abbrev pub active_ride : ℕ → ℕ → Ride → Bool
active_ride i phone r = r.scooter_id == i && r.user_phone == phone && is_active r.status

abbrev pub closed : ℕ → ℕ → ℕ → Option ℤ → Option ℤ → Ride → Ride
closed end_time minutes fare end_lat end_lng r = record r {
  end_time = some end_time;
  duration_minutes = some minutes;
  fare = some fare;
  end_lat = place_or_null end_lat;
  end_lng = place_or_null end_lng;
  status = finished;
}

-- `endRideRecord`.
unfoldable pub end_ride_record : Fleet → ℕ → ℕ → ℕ → ℕ → ℕ → Option ℤ → Option ℤ → Fleet
end_ride_record fleet i phone end_time minutes fare end_lat end_lng = record fleet {
  rides =
      update_where (active_ride i phone) (closed end_time minutes fare end_lat end_lng) fleet.rides;
}

abbrev pub battery_or_full : Option ℕ → ℕ
battery_or_full none = 100
battery_or_full (some zero) = 100
battery_or_full (some (suc n)) = suc n

-- `create`, with the default place of the source.
unfoldable pub create_scooter : Fleet → String → String → Option ℤ → Option ℤ → Option ℕ → Fleet × ℕ
create_scooter fleet name code lat lng battery = (
  record fleet {
    scooters =
        fleet.scooters
        ++ record {
          id = fleet.next_scooter;
          name = name;
          scooter_code = code;
          lat = place_or lat (pos 29375900);
          lng = place_or lng (pos 47977400);
          battery = battery_or_full battery;
          status = available;
          current_user_phone = none;
          ride_start_time = none;
          total_rentals = 0;
        }
          ∷ [];
    next_scooter = suc fleet.next_scooter;
  },
  fleet.next_scooter,
)

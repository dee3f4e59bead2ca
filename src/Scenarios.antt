-- ===== src/Scenarios.antt =====
-- The sample rows of the scenarios, and what the modules below run on them.
pub mod Statuses
pub mod Searches
pub mod Ratings
pub mod Views
mod Processes
pub mod Wallets
pub mod Services
pub mod Rentals
pub mod Kernels
pub mod Leases
pub mod Deliveries
pub mod Decisions
pub mod Stores
use Prim.Native.String.{String}
use oncall_backend_private.Prelude.{
  ℕ, zero, suc, ◌+◌, Bool, true, false, Option, none, some, List, [], ◌∷◌,
}
use oncall_backend_private.Schema.{
  ℤ, pos, negsuc, Status, waiting_driver, in_progress, completed, cancelled, wallet, pending,
  online, approved, Trip, Driver, Taxi, User, Db, empty_db,
}
use oncall_backend_private.Trips.Settlement.{Env}

-- A distance of one metre for each microdegree, east and north.
abbrev gap : ℤ → ℤ → ℕ
gap (pos zero) (pos n) = n
gap (pos (suc m)) (pos zero) = suc m
gap (pos (suc m)) (pos (suc n)) = gap (pos m) (pos n)
gap (pos m) (negsuc n) = suc (m + n)
gap (negsuc m) (pos n) = suc (m + n)
gap (negsuc zero) (negsuc n) = n
gap (negsuc (suc m)) (negsuc zero) = suc m
gap (negsuc (suc m)) (negsuc (suc n)) = gap (negsuc m) (negsuc n)

abbrev pub city : Env
city = record {
  distance = λ a b c d. gap a c + gap b d;
  hour = 12;
  passenger_online = λ p. true;
  driver_online = λ p. true;
  push_configured = false;
}

abbrev pub new_trip : ℕ → Trip
new_trip i = record {
  id = i;
  user_phone = some 50;
  driver_id = none;
  driver_name = none;
  pickup = "souq";
  destination = "port";
  pickup_lat = some (pos 10);
  pickup_lng = some (pos 10);
  dest_lat = none;
  dest_lng = none;
  driver_lat = none;
  driver_lng = none;
  status = waiting_driver;
  rejected_drivers = [];
  assigned_driver_id = none;
  request_sent_at = none;
  estimated_fare = some 900;
  final_fare = none;
  payment_method = wallet;
  payment_status = pending;
  rating = none;
  rating_comment = none;
  route = [];
  start_time = none;
  total_distance = 0;
  duration_minutes = 0;
  driver_rating = none;
  driver_rating_comment = none;
  passenger_rating = none;
}

abbrev pub driver_of : ℕ → ℕ → ℕ → Driver
driver_of i p place = record {
  id = i;
  phone = p;
  name = "driver";
  status = online;
  approval_status = approved;
  lat = pos place;
  lng = pos place;
  rating_tenths = 50;
  total_ratings = 0;
}

abbrev pub near : Driver
near = driver_of 7 70 12

abbrev pub far : Driver
far = driver_of 8 80 40

abbrev pub taxi_at : ℕ → ℕ → ℕ → Taxi
taxi_at i d place = record {
  id = i;
  driver_id = some d;
  lat = some (pos place);
  lng = some (pos place);
  status = online;
}

abbrev pub waiting_trip : Trip
waiting_trip = new_trip 1

abbrev pub running_trip : Trip
running_trip = record (new_trip 2) { status = in_progress; driver_id = some 7 }

abbrev pub completed_trip : Trip
completed_trip = record (new_trip 3) { status = completed; driver_id = some 7 }

abbrev pub rider : User
rider = record { phone = 50; balance = 5000 }

abbrev pub town : Db
town = record empty_db {
  trips = waiting_trip ∷ running_trip ∷ completed_trip ∷ [];
  next_trip = 4;
  drivers = far ∷ near ∷ [];
  taxis = taxi_at 1 8 40 ∷ taxi_at 2 7 12 ∷ [];
  users = rider ∷ [];
}

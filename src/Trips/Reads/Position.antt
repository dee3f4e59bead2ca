-- ===== src/Trips/Reads/Position.antt =====
-- What `updateLocation` of src/application/trips/useCases.js writes.
use oncall_backend_private.Prelude.{
  ℕ, zero, suc, ◌≡◌, refl, ap, ◌∙◌, true, false, Option, none, some, arith, if◌then◌else◌, ◌==◌,
}
use oncall_backend_private.Sql.{select_first}
use oncall_backend_private.Schema.{ℤ, Trip, Driver, driver_moved, Db}
use oncall_backend_private.Trips.Rules.{TripRejection, location_forbidden, drives}
use oncall_backend_private.Trips.Repository.{
  by_id, find_by_id, find_driver_by_phone, update_trip, moved, emit,
}
use oncall_backend_private.Trips.Repository.Found.{find_by_id-update, find_by_id-update_ne}
use oncall_backend_private.Trips.Settlement.{Env}
use oncall_backend_private.Trips.Matching.{Outcome, ok, err}
use oncall_backend_private.Trips.Reads.{
  update_location, update_taxi_location, next_route, moving_stats, move_by, LiveStats,
}

taxi-trips :
    (db : Db) (o : Option ℕ) (lat lng : ℤ) → (update_taxi_location db o lat lng).trips ≡ db.trips
unfolding update_taxi_location
taxi-trips db none lat lng = refl
taxi-trips db (some zero) lat lng = refl
taxi-trips db (some (suc d)) lat lng = refl

-- The trip with the driver's position, and, in progress only, with the point added to its route.
abbrev pub placed : ℤ → ℤ → ℕ → Trip → Trip
placed lat lng now t = moved lat lng (next_route t lat lng now) t

-- An accepted `updateLocation` was sent by the driver of the trip; it writes the position into that trip,
-- adds the point to the route only of a trip in progress, and leaves any other trip as it was.
pub position_written :
    (env : Env) (db : Db) (i phone : ℕ) (lat lng : ℤ) (now j : ℕ) (s : Option LiveStats)
    → (update_location env db i phone lat lng now).1 ≡ ok s
    → (i == j) ≡ false
    → (t : Trip) × (find_by_id db i ≡ some t)
      × (drives (find_driver_by_phone db phone) t ≡ true)
      × (find_by_id (update_location env db i phone lat lng now).0 i ≡ some (placed lat lng now t))
      × (find_by_id (update_location env db i phone lat lng now).0 j ≡ find_by_id db j)
unfolding update_location find_by_id
position_written env db i phone lat lng now j s e n =
    moves (find_by_id db i) refl (find_driver_by_phone db phone) e
  where
    allowed :
        (t : Trip) (d : Option Driver)
        → (move_by env db i lat lng now (some t) d).1 ≡ ok s
        → drives d t ≡ true
    allowed t d e = ground (arith, e)

    after :
        (t : Trip) (d : Option Driver)
        → (move_by env db i lat lng now (some t) d).1 ≡ ok s
        → (move_by env db i lat lng now (some t) d).0.trips
          ≡ (update_trip db i (moved lat lng (next_route t lat lng now))).trips
    after t d e =
        ap
          (λ b.
            (if◌then◌else◌ {A = Db × Outcome (Option LiveStats)} b
              (
                emit
                    (update_taxi_location
                      (update_trip db i (moved lat lng (next_route t lat lng now))) t.driver_id lat
                      lng)
                    (driver_moved i lat lng),
                ok (moving_stats env t (next_route t lat lng now) now),
              )
              (db, err location_forbidden)).0.trips)
          (allowed t d e)
        ∙ taxi-trips (update_trip db i (moved lat lng (next_route t lat lng now))) t.driver_id lat
            lng

    moves :
        (o : Option Trip)
        → find_by_id db i ≡ o
        → (d : Option Driver) → (move_by env db i lat lng now o d).1 ≡ ok s
        → (t : Trip) × (o ≡ some t)
          × (drives d t ≡ true)
          × (find_by_id (move_by env db i lat lng now o d).0 i ≡ some (placed lat lng now t))
          × (find_by_id (move_by env db i lat lng now o d).0 j ≡ find_by_id db j)
    moves none q d e = ground (arith, e)
    moves (some t) q d e = (
      t,
      refl,
      allowed t d e,
      ap (select_first (by_id i)) (after t d e)
          ∙ find_by_id-update db i (moved lat lng (next_route t lat lng now)) t (λ x. refl) q,
      ap (select_first (by_id j)) (after t d e)
          ∙ find_by_id-update_ne db i j (moved lat lng (next_route t lat lng now)) (λ x. refl) n,
    )

-- A refused `updateLocation` changes nothing.
pub position_refused :
    (env : Env) (db : Db) (i phone : ℕ) (lat lng : ℤ) (now : ℕ) (c : TripRejection)
    → (update_location env db i phone lat lng now).1 ≡ err c
    → (update_location env db i phone lat lng now).0 ≡ db
unfolding update_location
position_refused env db i phone lat lng now c =
    moves (find_by_id db i) (find_driver_by_phone db phone)
  where
    moves :
        (o : Option Trip) (d : Option Driver)
        → (move_by env db i lat lng now o d).1 ≡ err c
        → (move_by env db i lat lng now o d).0 ≡ db
    moves none d e = refl
    moves (some t) d e = ground (arith, e)

-- ===== src/Trips/Ratings/Once.antt =====
-- How often a trip can be rated (src/application/trips/useCases.js).
use oncall_backend_private.Prelude.{
  ℕ, ◌≡◌, refl, ◌≢◌, true, false, Option, none, some, arith, ◌∙◌, Option-cases, inl, inr, ◌≤◌,
}
use oncall_backend_private.Schema.{completed, Trip, Db}
use oncall_backend_private.Trips.Rules.{drives, is_set, is_completed, bad_rating, rating_policy}
use oncall_backend_private.Trips.Repository.{
  find_by_id, update_trip, rated_by_passenger, rated_by_driver, find_driver_by_phone,
}
use oncall_backend_private.Trips.Repository.Found.{find_by_id-update}
use oncall_backend_private.Trips.Matching.{ok}
use oncall_backend_private.Trips.Ratings.{
  RateCommand, after_rating, rate_trip, rate_passenger, tell_passenger,
}
use oncall_backend_private.Trips.Lifecycle.Moves.{find-trips}

pub after_rating-trips : (db : Db) (i : ℕ) (d : Option ℕ) → (after_rating db i d).trips ≡ db.trips
unfolding after_rating
after_rating-trips db i d = ground arith

-- A passenger's rating that is taken is one to five, of a completed trip of that passenger that was
-- not rated before.
pub rated_trip :
    (db : Db) (c : RateCommand)
    → (rate_trip db c).1 ≡ ok tt
    → (t : Trip) × (find_by_id db c.trip_id ≡ some t)
      × (t.status ≡ completed)
      × (t.user_phone ≡ some c.actor_phone)
      × (t.rating ≡ none)
      × (1 ≤ c.rating)
      × (c.rating ≤ 5)
      × (find_by_id (rate_trip db c).0 c.trip_id ≡ some (rated_by_passenger c.rating c.comment t))
unfolding rate_trip rating_policy
rated_trip db c h = elim (Option-cases (find_by_id db c.trip_id)) [
  | inl e ↦ ground arith
  | inr (t, e) ↦
      let row = update_trip db c.trip_id (rated_by_passenger c.rating c.comment) in
      let found =
        find-trips (after_rating row c.trip_id t.driver_id) row c.trip_id
          (after_rating-trips row c.trip_id t.driver_id)
        ∙ find_by_id-update db c.trip_id (rated_by_passenger c.rating c.comment) t (λ x. refl) e in
      (
        t,
        e,
        ground arith,
        ground arith,
        ground arith,
        ground arith,
        ground arith,
        ground (arith, found),
      )
]

-- A trip is rated by a passenger once: after a rating that was taken no other is, by anyone.
pub rate_trip_once :
    (db : Db) (c c' : RateCommand)
    → (rate_trip db c).1 ≡ ok tt
    → c'.trip_id ≡ c.trip_id
    → (rate_trip (rate_trip db c).0 c').1 ≢ ok tt
rate_trip_once db c c' h same again =
    let (t, found, done, own, unrated, low, high, after) = rated_trip db c h in
    let (u, found', done', own', unrated', low', high', after') =
      rated_trip (rate_trip db c).0 c' again in
    cc

-- What a driver's rating that is taken finds, and the row that it writes.
passenger_rated :
    (db : Db) (c : RateCommand)
    → (rate_passenger db c).1 ≡ ok tt
    → (t : Trip) × (find_by_id db c.trip_id ≡ some t)
      × (drives (find_driver_by_phone db c.actor_phone) t ≡ true)
      × (is_set t.driver_rating ≡ false)
      × (is_completed t.status ≡ true)
      × ((rate_passenger db c).0
          ≡ tell_passenger
              (update_trip db c.trip_id (rated_by_driver c.rating c.comment))
              c.trip_id
              t.user_phone)
unfolding rate_passenger
passenger_rated db c h = elim (Option-cases (find_by_id db c.trip_id)) [
  | inl e ↦ ground arith
  | inr (t, e) ↦ (t, e, ground arith, ground arith, ground arith, ground arith)
]

tell_passenger_same :
    (db : Db) (i : ℕ) (p : Option ℕ)
    → ((tell_passenger db i p).trips ≡ db.trips) × ((tell_passenger db i p).drivers ≡ db.drivers)
tell_passenger_same db i p = (ground arith, ground arith)

find_driver-drivers :
    (a b : Db) (phone : ℕ)
    → a.drivers ≡ b.drivers
    → find_driver_by_phone a phone ≡ find_driver_by_phone b phone
unfolding find_driver_by_phone
find_driver-drivers a b phone h = cc

update_trip-drivers :
    (db : Db) (i : ℕ) (f : Trip → Trip) → (update_trip db i f).drivers ≡ db.drivers
unfolding update_trip
update_trip-drivers db i f = refl

-- A driver's rating of the passenger is not kept to once: it is written to `passenger_rating`, while
-- the test reads `driver_rating`. After one that was taken the same driver's next one is taken too.
pub rate_passenger_again :
    (db : Db) (c : RateCommand) (r : ℕ)
    → (rate_passenger db c).1 ≡ ok tt
    → bad_rating r ≡ false
    → (rate_passenger (rate_passenger db c).0 (record c { rating = r })).1 ≡ ok tt
unfolding rate_passenger
rate_passenger_again db c r h v =
    let (t, found, own, unset, done, after) = passenger_rated db c h in
    let row = update_trip db c.trip_id (rated_by_driver c.rating c.comment) in
    let (rows, drivers) = tell_passenger_same row c.trip_id t.user_phone in
    let found' =
      find-trips (tell_passenger row c.trip_id t.user_phone) row c.trip_id rows
      ∙ find_by_id-update db c.trip_id (rated_by_driver c.rating c.comment) t (λ x. refl) found in
    let driver' =
      find_driver-drivers (tell_passenger row c.trip_id t.user_phone) db c.actor_phone
        (drivers ∙ update_trip-drivers db c.trip_id (rated_by_driver c.rating c.comment)) in
    rw (after, v, found', driver') (ground arith)

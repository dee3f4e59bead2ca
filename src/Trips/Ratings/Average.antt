-- ===== src/Trips/Ratings/Average.antt =====
-- The average of a driver after a rating (src/application/trips/useCases.js).
use oncall_backend_private.Prelude.{
  ℕ, suc, ◌*◌, ◌≡◌, refl, ◌≤◌, ◌≢◌, Option, none, some, List, [], ◌∷◌, arith, ◌∙◌, length, All,
  keep,
}
use oncall_backend_private.Sql.{select_first, select_first-update_where, select_first_sound}
use oncall_backend_private.Schema.{Trip, Driver, Db}
use oncall_backend_private.Trips.Rules.{rating_policy}
use oncall_backend_private.Trips.Repository.{
  by_id, find_by_id, update_trip, rated_by_passenger, find_driver_by_id, driver_id_is,
  rated_trip_of, ratings_of, get_ratings_by_driver,
}
use oncall_backend_private.Trips.Repository.Found.{find_by_id-update}
use oncall_backend_private.Trips.Matching.{ok}
use oncall_backend_private.Trips.Ratings.{
  RateCommand, sum, average_tenths, with_rating, update_rating, after_rating, rate_trip,
  tell_driver,
}
use oncall_backend_private.Trips.Ratings.Once.{after_rating-trips}

abbrev pub IsRating : ℕ → Type 0
IsRating r = (1 ≤ r) × (r ≤ 5)

sum_bounds : (rs : List ℕ) → All IsRating rs → (length rs ≤ sum rs) × (sum rs ≤ 5 * length rs)
unfolding sum
sum_bounds [] h = omega arith
sum_bounds (r ∷ rs) h = omega (arith, sum_bounds rs h.1)

-- An average of ratings from one to five, rounded to tenths, lies between 1.0 and 5.0.
pub average_bounds :
    (r : ℕ) (rs : List ℕ)
    → All IsRating (r ∷ rs)
    → (10 ≤ average_tenths (r ∷ rs)) × (average_tenths (r ∷ rs) ≤ 50)
average_bounds r rs h = grind (arith, sum_bounds (r ∷ rs) h)

found_in_ratings :
    (i d r : ℕ) (t : Trip) (ts : List Trip)
    → select_first (by_id i) ts ≡ some t
    → t.driver_id ≡ some d
    → t.rating ≡ some r
    → ratings_of (keep (rated_trip_of d) ts) ≢ []
unfolding ratings_of keep select_first
found_in_ratings i d r t [] e h k = ground arith
found_in_ratings i d r t (x ∷ ts) e h k = ground (arith, found_in_ratings i d r t ts)

update_rating_row :
    (db : Db) (d : ℕ) (rs : List ℕ) (x : Driver)
    → rs ≢ []
    → find_driver_by_id db d ≡ some x
    → find_driver_by_id (update_rating db d rs) d
      ≡ some (with_rating (average_tenths rs) (length rs) x)
unfolding update_rating find_driver_by_id
update_rating_row db d [] x n e = absurd (n refl)
update_rating_row db d (r ∷ rs) x n e = ground (
  arith,
  select_first-update_where (driver_id_is d) (driver_id_is d)
      (with_rating (average_tenths (r ∷ rs)) (length (r ∷ rs))) db.drivers (λ y. refl),
  select_first_sound (driver_id_is d) db.drivers x,
  e,
)

tell_driver-find :
    (db : Db) (i j : ℕ) (o : Option Driver)
    → find_driver_by_id (tell_driver db i o) j ≡ find_driver_by_id db j
unfolding find_driver_by_id
tell_driver-find db i j none = refl
tell_driver-find db i j (some d) = refl

after_rating_row :
    (db : Db) (i d : ℕ) (x : Driver) (o : Option ℕ)
    → o ≡ some (suc d)
    → get_ratings_by_driver db (suc d) ≢ []
    → find_driver_by_id db (suc d) ≡ some x
    → let rs = get_ratings_by_driver db (suc d) in
      find_driver_by_id (after_rating db i o) (suc d)
      ≡ some (with_rating (average_tenths rs) (length rs) x)
unfolding after_rating
after_rating_row db i d x o q n e = rw q (
    tell_driver-find _ i (suc d) _
    ∙ update_rating_row db (suc d) (get_ratings_by_driver db (suc d)) x n e)

ratings-trips :
    (a b : Db) (d : ℕ) → a.trips ≡ b.trips → get_ratings_by_driver a d ≡ get_ratings_by_driver b d
unfolding get_ratings_by_driver
ratings-trips a b d h = cc

ratings_of_found :
    (db : Db) (i d r : ℕ) (t : Trip)
    → find_by_id db i ≡ some t
    → t.driver_id ≡ some d
    → t.rating ≡ some r
    → get_ratings_by_driver db d ≢ []
unfolding get_ratings_by_driver find_by_id
ratings_of_found db i d r t = found_in_ratings i d r t db.trips

-- What a rating that is taken leaves: the database after the averaging.
rate_trip_after :
    (db : Db) (c : RateCommand) (t : Trip)
    → (rate_trip db c).1 ≡ ok tt
    → find_by_id db c.trip_id ≡ some t
    → (rate_trip db c).0
      ≡ after_rating
          (update_trip db c.trip_id (rated_by_passenger c.rating c.comment))
          c.trip_id
          t.driver_id
unfolding rate_trip rating_policy
rate_trip_after db c t h e = ground arith

update_trip-driver :
    (db : Db) (i d : ℕ) (f : Trip → Trip)
    → find_driver_by_id (update_trip db i f) d ≡ find_driver_by_id db d
unfolding update_trip find_driver_by_id
update_trip-driver db i d f = refl

length_pos : (rs : List ℕ) → rs ≢ [] → 1 ≤ length rs
length_pos [] n = absurd (n refl)
length_pos (r ∷ rs) n = omega arith

-- After a rating that is taken the driver of the trip has, in the drivers table, the average of all
-- their rated trips, this one included, rounded to tenths, and the number of those trips.
pub rating_averaged :
    (db : Db) (c : RateCommand) (t : Trip) (d : ℕ) (x : Driver)
    → (rate_trip db c).1 ≡ ok tt
    → find_by_id db c.trip_id ≡ some t
    → t.driver_id ≡ some (suc d)
    → find_driver_by_id db (suc d) ≡ some x
    → let rs = get_ratings_by_driver (rate_trip db c).0 (suc d) in
      (find_driver_by_id (rate_trip db c).0 (suc d)
        ≡ some (with_rating (average_tenths rs) (length rs) x))
      × (1 ≤ length rs)
rating_averaged db c t d x h e q f =
    let row = update_trip db c.trip_id (rated_by_passenger c.rating c.comment) in
    let found =
      find_by_id-update db c.trip_id (rated_by_passenger c.rating c.comment) t (λ y. refl) e in
    let nonempty =
      ratings_of_found row c.trip_id (suc d) c.rating (rated_by_passenger c.rating c.comment t)
        found q refl in
    let same =
      ratings-trips (after_rating row c.trip_id t.driver_id) row (suc d)
        (after_rating-trips row c.trip_id t.driver_id) in
    rw (rate_trip_after db c t h e, same)
      (
        after_rating_row row c.trip_id d x t.driver_id q nonempty
            (update_trip-driver db c.trip_id (suc d) (rated_by_passenger c.rating c.comment) ∙ f),
        length_pos (get_ratings_by_driver row (suc d)) nonempty,
      )

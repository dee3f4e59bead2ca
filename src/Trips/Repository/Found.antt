-- ===== src/Trips/Repository/Found.antt =====
-- What `findById` of src/repositories/TripRepository.js finds after a statement.
use oncall_backend_private.Prelude.{
  ℕ, ◌≡◌, refl, true, false, Option, some, List, [], ◌∷◌, ◌==◌, arith, ap, ==_iff,
}
use oncall_backend_private.Sql.{
  select_first, update_where, select_first-update_where, select_first_sound,
}
use oncall_backend_private.Schema.{Trip, Driver, Taxi, Db}
use oncall_backend_private.Trips.Rules.{is_waiting}
use oncall_backend_private.Trips.Repository.{
  by_id, find_by_id, update_trip, is_open, accepted_by, accept_by_driver,
}

-- The row that an id finds has that id.
pub find_by_id-id : (db : Db) (i : ℕ) (t : Trip) → find_by_id db i ≡ some t → t.id ≡ i
unfolding find_by_id
find_by_id-id db i t e = (==_iff t.id i).0 (select_first_sound (by_id i) db.trips t e)

-- After an UPDATE by id, that id finds the row updated, and any other what it found before.
pub find_by_id-update :
    (db : Db) (i : ℕ) (f : Trip → Trip) (t : Trip)
    → ((x : Trip) → (f x).id ≡ x.id)
    → find_by_id db i ≡ some t
    → find_by_id (update_trip db i f) i ≡ some (f t)
unfolding find_by_id update_trip
find_by_id-update db i f t h e = ground (
  arith,
  select_first-update_where (by_id i) (by_id i) f db.trips (λ x. ap (λ n. n == i) (h x)),
  select_first_sound (by_id i) db.trips t,
  e,
)

pub find_by_id-update_ne :
    (db : Db) (i j : ℕ) (f : Trip → Trip)
    → ((x : Trip) → (f x).id ≡ x.id)
    → (i == j) ≡ false
    → find_by_id (update_trip db i f) j ≡ find_by_id db j
unfolding find_by_id update_trip select_first update_where
find_by_id-update_ne db i j f h n = rows db.trips
  where
    rows :
        (ts : List Trip)
        → select_first (by_id j) (update_where (by_id i) f ts) ≡ select_first (by_id j) ts
    rows [] = refl
    rows (t ∷ ts) = ground (arith, h t, rows ts)

-- An acceptance that changed a row found it waiting, and left it accepted by that driver.
pub find_by_id-accept :
    (db : Db) (i : ℕ) (d : Driver) (taxi : Option Taxi) (t : Trip)
    → find_by_id db i ≡ some t
    → is_waiting t.status ≡ true
    → find_by_id (accept_by_driver db i d taxi).0 i ≡ some (accepted_by d taxi t)
unfolding find_by_id accept_by_driver
find_by_id-accept db i d taxi t e w = ground (
  arith,
  select_first-update_where (by_id i) (is_open i) (accepted_by d taxi) db.trips (λ x. refl),
  select_first_sound (by_id i) db.trips t,
  e,
)

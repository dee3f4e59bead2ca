-- ===== src/Trips/Lifecycle/Creation.antt =====
-- What `createTrip` of src/application/trips/useCases.js inserts.
use Prim.Native.String.{String}
use oncall_backend_private.Prelude.{
  ℕ, ◌<◌, ◌≡◌, refl, subst, Bool, true, false, Option, none, some, List, [], ◌∷◌, ◌++◌, ◌==◌, arith,
  All, All-append, All-imply, if◌then◌else◌,
}
use oncall_backend_private.Sql.{select_first}
use oncall_backend_private.Schema.{waiting_driver, Trip, Db}
use oncall_backend_private.Trips.Rules.{bad_pickup_coords, bad_dest_coords}
use oncall_backend_private.Trips.Settlement.{Env}
use oncall_backend_private.Trips.Matching.{ok, err}
use oncall_backend_private.Trips.Repository.{by_id, find_by_id, create}
use oncall_backend_private.Trips.Lifecycle.{
  TripRequest, method_or_cash, bad_coords, estimate_fare, insert_trip, given_texts, create_trip,
}

-- Every row has an id that was given out.
abbrev pub IsNumbered : Db → Type 0
IsNumbered db = All (λ t. t.id < db.next_trip) db.trips

select_first-append :
    (n : ℕ) (ts : List Trip) (row : Trip)
    → row.id ≡ n
    → All (λ t. t.id < n) ts
    → select_first (by_id n) (ts ++ row ∷ []) ≡ some row
unfolding select_first
select_first-append n [] row e h = ground (arith, e)
select_first-append n (t ∷ ts) row e h = ground (arith, h.0, select_first-append n ts row e h.1)

select_first-append_ne :
    (n j : ℕ) (ts : List Trip) (row : Trip)
    → row.id ≡ n
    → (n == j) ≡ false
    → select_first (by_id j) (ts ++ row ∷ []) ≡ select_first (by_id j) ts
unfolding select_first
select_first-append_ne n j [] row e h = ground (arith, e, h)
select_first-append_ne n j (t ∷ ts) row e h = ground (arith, select_first-append_ne n j ts row e h)

-- The row that an insertion leaves under a new id.
abbrev pub IsNewTrip : Env → TripRequest → Trip → Type 0
IsNewTrip env c t =
    (t.status ≡ waiting_driver)
    × (t.driver_id ≡ none)
    × (t.rejected_drivers ≡ [])
    × (t.payment_method ≡ method_or_cash c.payment_method)
    × (t.estimated_fare ≡ some (estimate_fare env c))

abbrev Inserted : Env → Db → TripRequest → ℕ → ℕ → Db → Type 0
Inserted env db c i j after =
    (i ≡ db.next_trip)
    × ((t : Trip) × (find_by_id after i ≡ some t) × IsNewTrip env c t)
    × (find_by_id after j ≡ find_by_id db j)
    × IsNumbered after

insert_trip-Inserted :
    (env : Env) (db : Db) (c : TripRequest) (pickup destination : String) (i j : ℕ)
    → IsNumbered db
    → (db.next_trip == j) ≡ false
    → (insert_trip env db c pickup destination).1 ≡ ok i
    → Inserted env db c i j (insert_trip env db c pickup destination).0
unfolding insert_trip create find_by_id
insert_trip-Inserted env db c pickup destination i j h n e =
    subst (λ k. Inserted env db c k j (insert_trip env db c pickup destination).0) given
      (
        refl,
        (_, select_first-append db.next_trip db.trips _ refl h, (refl, refl, refl, refl, refl)),
        select_first-append_ne db.next_trip j db.trips _ refl n,
        All-append _ db.trips _ (All-imply _ _ db.trips (λ t k. omega (arith, k)) h)
            (omega arith, tt),
      )
  where
    given : db.next_trip ≡ i
    given = ground (arith, e)

-- Where every trip has an id below the next one, a request that is accepted inserts one trip under
-- the next id: waiting, with no driver and nobody excluded, paid as asked or in cash, at the
-- estimate shown. No other trip is changed, and every id is again below the next one.
pub trip_created :
    (env : Env) (db : Db) (c : TripRequest) (i j : ℕ)
    → IsNumbered db
    → (db.next_trip == j) ≡ false
    → (create_trip env db c).1 ≡ ok i
    → (i ≡ db.next_trip)
      × ((t : Trip) × (find_by_id (create_trip env db c).0 i ≡ some t) × IsNewTrip env c t)
      × (find_by_id (create_trip env db c).0 j ≡ find_by_id db j)
      × IsNumbered (create_trip env db c).0
unfolding create_trip
trip_created env db c i j h n = texts c.pickup c.destination
  where
    checks :
        (pickup destination : String) (b d : Bool)
        → (if b
            then (db, err bad_pickup_coords)
            else if d
            then (db, err bad_dest_coords)
            else insert_trip env db c pickup destination).1
          ≡ ok i
        → Inserted env db c i j
            (if b
              then (db, err bad_pickup_coords)
              else if d
              then (db, err bad_dest_coords)
              else insert_trip env db c pickup destination).0
    checks p q true d e = ground (arith, e)
    checks p q false true e = ground (arith, e)
    checks p q false false e = insert_trip-Inserted env db c p q i j h n e

    texts :
        (p q : Option String)
        → (given_texts env db c p q).1 ≡ ok i
        → Inserted env db c i j (given_texts env db c p q).0
    texts none q e = ground (arith, e)
    texts (some String.[]) q e = ground (arith, e)
    texts (some (String.◌∷◌ a p)) none e = ground (arith, e)
    texts (some (String.◌∷◌ a p)) (some String.[]) e = ground (arith, e)
    texts (some (String.◌∷◌ a p)) (some (String.◌∷◌ b q)) e =
        checks (String.◌∷◌ a p) (String.◌∷◌ b q) (bad_coords c.pickup_lat c.pickup_lng)
          (bad_coords c.dest_lat c.dest_lng) e

-- ===== src/Trips/Matching/Free.antt =====
-- Which rows of the tables `findNearestDriver` of src/services/driverMatcher.js may return, and what
-- `dispatchMatching` of src/application/trips/useCases.js does where there are none.
use mathlib.Core.List.{Memᴰ}
use oncall_backend_private.Prelude.{
  ℕ, ◌≡◌, refl, sym, ap, subst, ◌∙◌, true, false, Option, none, some, List, [], ◌∷◌, includes, All,
  All-append, All-imply, arith, ==_refl, Option-cases, inl, inr,
}
use oncall_backend_private.Schema.{
  ℤ, Presence, online, Approval, approved, waiting_driver, trip_updated, no_driver, Trip, Driver,
  Taxi, Db,
}
use oncall_backend_private.Trips.Rules.{holds}
use oncall_backend_private.Trips.Settlement.{Env}
use oncall_backend_private.Trips.Repository.{find_by_id}
use oncall_backend_private.Trips.Matching.{
  is_online, is_approved, is_eligible, serves, Candidate, rows_of_driver, online_drivers,
  find_nearest_driver, dispatch_to, dispatch_matching,
}
use oncall_backend_private.Trips.Matching.Nearest.{All-if, find_nearest_driver-All}

-- A row of the join of the tables, by its columns: a driver that is online, approved and not excluded, with
-- the place of a taxi that is the driver's and is online.
abbrev pub IsFree : List ℕ → List Driver → List Taxi → Candidate → Type 0
IsFree excluded drivers taxis c =
    Memᴰ c.driver drivers
    × (c.driver.status ≡ online)
    × (c.driver.approval_status ≡ approved)
    × All (λ n. ¬ (n ≡ c.driver.id)) excluded
    × ((t : Taxi) × Memᴰ t taxis
        × (t.driver_id ≡ some c.driver.id)
        × (t.status ≡ online)
        × (c.taxi_lat ≡ t.lat)
        × (c.taxi_lng ≡ t.lng))

abbrev IsServed : List Taxi → Driver → Candidate → Type 0
IsServed taxis d c =
    (c.driver ≡ d)
    × ((t : Taxi) × Memᴰ t taxis
        × (t.driver_id ≡ some c.driver.id)
        × (t.status ≡ online)
        × (c.taxi_lat ≡ t.lat)
        × (c.taxi_lng ≡ t.lng))

online_of : (p : Presence) → is_online p ≡ true → p ≡ online
online_of p h = ground (arith, h)

approved_of : (a : Approval) → is_approved a ≡ true → a ≡ approved
approved_of a h = ground (arith, h)

held_of : (o : Option ℕ) (n : ℕ) → holds o n ≡ true → o ≡ some n
held_of none n h = ground (arith, h)
held_of (some m) n h = ground (arith, h)

not_excluded :
    (excluded : List ℕ) (id : ℕ) → includes excluded id ≡ false → All (λ n. ¬ (n ≡ id)) excluded
unfolding includes
not_excluded [] id h = tt
not_excluded (n ∷ ns) id h =
    (λ e. ground (arith, h, e, ==_refl id), not_excluded ns id (ground (arith, h)))

rows_of_driver-IsServed : (d : Driver) (ts : List Taxi) → All (IsServed ts d) (rows_of_driver d ts)
unfolding rows_of_driver
rows_of_driver-IsServed d [] = tt
rows_of_driver-IsServed d (t ∷ ts) =
    let rest =
      All-imply (IsServed ts d) (IsServed (t ∷ ts) d) (rows_of_driver d ts)
        (λ c (same, (u, m, owner, up, lat, lng)). (same, (u, Memᴰ.tail m, owner, up, lat, lng)))
        (rows_of_driver-IsServed d ts) in
    All-if _ (serves d t) _ _
      (λ e. (
        (
          refl,
          (
            t,
            Memᴰ.head refl,
            held_of t.driver_id d.id (ground (arith, e)),
            online_of t.status (ground (arith, e)),
            refl,
            refl,
          ),
        ),
        rest,
      ))
      rest

online_drivers-IsFree :
    (ex : List ℕ) (ds : List Driver) (ts : List Taxi)
    → All (IsFree ex ds ts) (online_drivers ex ds ts)
unfolding online_drivers is_eligible
online_drivers-IsFree ex [] ts = tt
online_drivers-IsFree ex (d ∷ ds) ts =
    let rest =
      All-imply (IsFree ex ds ts) (IsFree ex (d ∷ ds) ts) (online_drivers ex ds ts)
        (λ c (m, up, ok, out, taxi). (Memᴰ.tail m, up, ok, out, taxi))
        (online_drivers-IsFree ex ds ts) in
    All-if _ (is_eligible ex d) _ _ (λ e. All-append _ (rows_of_driver d ts) _ (here e) rest) rest
  where
    here : is_eligible ex d ≡ true → All (IsFree ex (d ∷ ds) ts) (rows_of_driver d ts)
    here e =
        let (up, ok, out) : (d.status ≡ online)
            × (d.approval_status ≡ approved)
            × All (λ n. ¬ (n ≡ d.id)) ex =
          (
            online_of d.status (ground (arith, e)),
            approved_of d.approval_status (ground (arith, e)),
            not_excluded ex d.id (ground (arith, e)),
          ) in
        All-imply (IsServed ts d) (IsFree ex (d ∷ ds) ts) (rows_of_driver d ts)
          (λ c (same, taxi). (
            Memᴰ.head same,
            ap (λ (x : Driver). x.status) same ∙ up,
            ap (λ (x : Driver). x.approval_status) same ∙ ok,
            subst (λ (x : Driver). All (λ n. ¬ (n ≡ x.id)) ex) (sym same) out,
            taxi,
          ))
          (rows_of_driver-IsServed d ts)

-- What `findNearestDriver` returns is a row of the table of drivers that is online, approved and not
-- excluded, with the place of a row of the table of taxis that is that driver's and is online.
pub find_nearest_driver-IsFree :
    (env : Env) (db : Db) (lat lng : Option ℤ) (excluded : List ℕ) (c : Candidate)
    → find_nearest_driver env db lat lng excluded ≡ some c
    → IsFree excluded db.drivers db.taxis c
find_nearest_driver-IsFree env db lat lng excluded c e =
    find_nearest_driver-All (IsFree excluded db.drivers db.taxis) env db lat lng excluded c
      (online_drivers-IsFree excluded db.drivers db.taxis) e

-- Where no driver that is online and approved has an online taxi, `dispatchMatching` leaves a trip that
-- waits for a driver in that status and sets no timer, although the passenger's screen is told no_driver.
pub unmatched_trip_waits :
    (env : Env) (db : Db) (i now : ℕ) (lat lng : Option ℤ) (t : Trip)
    → find_by_id db i ≡ some t
    → t.status ≡ waiting_driver
    → ((c : Candidate) → ¬ IsFree [] db.drivers db.taxis c)
    → let after = dispatch_matching env db i lat lng now in
      ((kept : Trip) × (find_by_id after i ≡ some kept) × (kept.status ≡ waiting_driver))
      × (after.timers ≡ db.timers)
      × (after.emits ≡ trip_updated i no_driver ∷ db.emits)
unfolding dispatch_matching find_by_id
unmatched_trip_waits env db i now lat lng t found waits nobody =
    elim (Option-cases (find_nearest_driver env db lat lng [])) [
      | inl f ↦ (
        (t, ap (λ o. find_by_id (dispatch_to env db i now o) i) f ∙ found, waits),
        ap (λ o. (dispatch_to env db i now o).timers) f,
        ap (λ o. (dispatch_to env db i now o).emits) f,
      )
      | inr (c, f) ↦ absurd (nobody c (find_nearest_driver-IsFree env db lat lng [] c f))
    ]

-- ===== src/Trips/Lifecycle/Result.antt =====
-- The outcome of `updateTripStatus` (src/application/trips/useCases.js) as a whole.
use oncall_backend_private.Prelude.{
  ℕ, zero, suc, ◌≡◌, refl, sym, true, Option, none, some, arith, ◌∙◌,
}
use oncall_backend_private.Schema.{Status, accepted, Trip, Driver, Db}
use oncall_backend_private.Trips.Rules.{
  TripRejection, allowed, is_valid_status, state_transition_authorization, acceptance_policy,
  assigned_driver_policy, cancellation_policy,
}
use oncall_backend_private.Trips.Repository.{
  find_by_id, accept_by_driver, find_driver_by_phone, find_taxi,
}
use oncall_backend_private.Trips.Settlement.{Env}
use oncall_backend_private.Trips.Matching.{ok, err}
use oncall_backend_private.Trips.Lifecycle.{
  StatusCommand, Branch, claimed, claim, accept_branch, start_branch, complete_branch,
  cancel_branch, misc_branch, branch, announce, answer, with_trip, update_trip_status,
}
use oncall_backend_private.Trips.Lifecycle.Moves.{
  may_move, Moved, branch-Moved, find-trips, accept_by_driver-none,
}

announce-trips :
    (env : Env) (db : Db) (i : ℕ) (s : Status) (u : Trip) → (announce env db i s u).trips ≡ db.trips
unfolding announce
announce-trips env db i s u = ground arith

-- A call that answers `ok` has checked the status asked for, and is a branch that went through.
pub ok-branch :
    (env : Env) (db : Db) (c : StatusCommand) (now : ℕ) (t u : Trip)
    → find_by_id db c.trip_id ≡ some t
    → (update_trip_status env db c now).1 ≡ ok u
    → (is_valid_status c.status ≡ true)
      × (state_transition_authorization c.status c.actor_type ≡ allowed)
      × ((branch env db c now t c.status).1 ≡ ok tt)
      × (find_by_id (branch env db c now t c.status).0 c.trip_id ≡ some u)
      × ((update_trip_status env db c now).0
          ≡ announce env (branch env db c now t c.status).0 c.trip_id c.status u)
unfolding update_trip_status
ok-branch env db c now t u e h = ground arith

-- A change of status that is answered `ok` has done it: the trip is found with the status asked for,
-- that row is the answer, and the move is one that the rules allow from the status the row had.
pub status_changed :
    (env : Env) (db : Db) (c : StatusCommand) (now : ℕ) (t u : Trip)
    → find_by_id db c.trip_id ≡ some t
    → (update_trip_status env db c now).1 ≡ ok u
    → (find_by_id (update_trip_status env db c now).0 c.trip_id ≡ some u)
      × (u.status ≡ c.status)
      × (may_move t.status c.status ≡ true)
status_changed env db c now t u e h =
    let (valid, authorised, went, found, after) = ok-branch env db c now t u e h in
    let (v, found', status, move) = branch-Moved env db c now t c.status valid e went in
    let same : some v ≡ some u = sym found' ∙ found in
    (
      rw after (find-trips _ _ c.trip_id (announce-trips env _ c.trip_id c.status u) ∙ found),
      cc,
      move,
    )

claim-refused :
    (db : Db) (i : ℕ) (o : Option Driver) (code : TripRejection)
    → (claim db i o).1 ≡ err code
    → (claim db i o).0 ≡ db
claim-refused db i none code h = refl
claim-refused db i (some d) code h =
    after (accept_by_driver db i d (find_taxi db d.id))
      (accept_by_driver-none db i d (find_taxi db d.id)) h
  where
    after :
        (r : Db × ℕ)
        → (r.1 ≡ 0 → r.0 ≡ db)
        → (claimed i (find_taxi db d.id) r).1 ≡ err code
        → (claimed i (find_taxi db d.id) r).0 ≡ db
    after (x, zero) same h = same refl
    after (x, suc n) same h = cc

branch-refused :
    (env : Env) (db : Db) (c : StatusCommand) (now : ℕ) (t : Trip) (s : Status)
    (code : TripRejection)
    → (branch env db c now t s).1 ≡ err code
    → (branch env db c now t s).0 ≡ db
unfolding branch start_branch complete_branch cancel_branch misc_branch assigned_driver_policy
    cancellation_policy accept_branch acceptance_policy
branch-refused env db c now t accepted code h =
    ground (arith, claim-refused db c.trip_id (find_driver_by_phone db c.actor_phone) code)
branch-refused env db c now t _ code h = ground arith

with_trip-refused :
    (env : Env) (db : Db) (c : StatusCommand) (now : ℕ) (o : Option Trip) (code : TripRejection)
    → is_valid_status c.status ≡ true
    → find_by_id db c.trip_id ≡ o
    → (with_trip env db c now o).1 ≡ err code
    → (with_trip env db c now o).0 ≡ db
with_trip-refused env db c now none code v e h = refl
with_trip-refused env db c now (some t) code v e h =
    after (branch env db c now t c.status) (branch-refused env db c now t c.status)
      (branch-Moved env db c now t c.status v e) h
  where
    after :
        (r : Branch)
        → ((k : TripRejection) → r.1 ≡ err k → r.0 ≡ db)
        → (r.1 ≡ ok tt → Moved r.0 c.trip_id t c.status)
        → (answer env c.trip_id c.status r).1 ≡ err code
        → (answer env c.trip_id c.status r).0 ≡ db
    after (x, err k) same found h' = same k refl
    after (x, ok _) same found h' = ground (arith, found refl)

-- A change of status that is refused, at whatever step, leaves the database as it was: no row, no
-- taxi, no timer and no event.
pub refused_unchanged :
    (env : Env) (db : Db) (c : StatusCommand) (now : ℕ) (code : TripRejection)
    → (update_trip_status env db c now).1 ≡ err code
    → (update_trip_status env db c now).0 ≡ db
unfolding update_trip_status
refused_unchanged env db c now code h =
    ground (arith, with_trip-refused env db c now (find_by_id db c.trip_id) code)

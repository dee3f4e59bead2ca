-- ===== src/Trips/Lifecycle/Race.antt =====
-- Drivers that accept one trip at the same time: each has read the trip as waiting, and their UPDATEs
-- (`acceptByDriver` of src/repositories/TripRepository.js) reach the database in some order.
use oncall_backend_private.Prelude.{
  ℕ, zero, suc, ◌+◌, ◌≡◌, refl, true, false, Option, some, List, [], ◌∷◌, arith, ap, ◌∙◌, ◌==◌,
}
use oncall_backend_private.Sql.{select_first, update_where, changes, update_where-none}
use oncall_backend_private.Schema.{Trip, Driver, Taxi, Db}
use oncall_backend_private.Trips.Rules.{already_accepted, is_waiting}
use oncall_backend_private.Trips.Repository.{
  by_id, find_by_id, is_open, accepted_by, accept_by_driver, find_taxi, set_taxi_busy, clear_timer,
}
use oncall_backend_private.Trips.Repository.Found.{find_by_id-accept}
use oncall_backend_private.Trips.Matching.{Outcome, ok, err}
use oncall_backend_private.Trips.Lifecycle.{claimed, claim}
use oncall_backend_private.Trips.Lifecycle.Moves.{
  find-trips, set_taxi_busy-trips, clear_timer-trips,
}

-- No row of that trip is waiting.
IsTaken : Db → ℕ → Type 0
IsTaken db i = changes (is_open i) db.trips ≡ 0

rows_taken :
    (i : ℕ) (d : Driver) (taxi : Option Taxi) (ts : List Trip)
    → changes (is_open i) (update_where (is_open i) (accepted_by d taxi) ts) ≡ 0
unfolding changes update_where
rows_taken i d taxi [] = refl
rows_taken i d taxi (t ∷ ts) = ground (arith, rows_taken i d taxi ts)

claimed-IsTaken :
    (i : ℕ) (taxi : Option Taxi) (r : Db × ℕ) → IsTaken r.0 i → IsTaken (claimed i taxi r).0 i
unfolding IsTaken
claimed-IsTaken i taxi (db, zero) h = h
claimed-IsTaken i taxi (db, suc n) h =
    ap (changes (is_open i)) (clear_timer-trips _ i ∙ set_taxi_busy-trips db taxi) ∙ h

claim-IsTaken : (db : Db) (i : ℕ) (d : Driver) → IsTaken (claim db i (some d)).0 i
unfolding IsTaken accept_by_driver
claim-IsTaken db i d =
    claimed-IsTaken i (find_taxi db d.id) (accept_by_driver db i d (find_taxi db d.id))
      (rows_taken i d (find_taxi db d.id) db.trips)

claim_of_IsTaken :
    (db : Db) (i : ℕ) (d : Driver) → IsTaken db i → claim db i (some d) ≡ (db, err already_accepted)
unfolding IsTaken accept_by_driver
claim_of_IsTaken db i d h =
    rw (h, update_where-none (is_open i) (accepted_by d (find_taxi db d.id)) db.trips h)

abbrev won : Outcome (Unit {0}) → ℕ
won (ok _) = 1
won (err _) = 0

-- The UPDATEs of several drivers, one after the other, and how many of them won the trip.
pub run_claims : Db → ℕ → List Driver → Db × ℕ
run_claims db i [] = (db, 0)
run_claims db i (d ∷ ds) =
    let (after, result) = claim db i (some d) in
    let (final, n) = run_claims after i ds in (final, won result + n)

run_claims_of_IsTaken :
    (db : Db) (i : ℕ) (ds : List Driver) → IsTaken db i → run_claims db i ds ≡ (db, 0)
unfolding run_claims
run_claims_of_IsTaken db i [] h = refl
run_claims_of_IsTaken db i (d ∷ ds) h =
    rw (claim_of_IsTaken db i d h) (rw (run_claims_of_IsTaken db i ds h))

open_of_waiting :
    (i : ℕ) (t : Trip) (ts : List Trip)
    → select_first (by_id i) ts ≡ some t
    → is_waiting t.status ≡ true
    → (changes (is_open i) ts == 0) ≡ false
unfolding changes select_first
open_of_waiting i t [] e w = ground arith
open_of_waiting i t (x ∷ ts) e w = ground (arith, open_of_waiting i t ts)

-- The first UPDATE to reach a waiting trip wins it.
pub claim_of_waiting :
    (db : Db) (i : ℕ) (t : Trip) (d : Driver)
    → find_by_id db i ≡ some t
    → is_waiting t.status ≡ true
    → ((claim db i (some d)).1 ≡ ok tt)
      × (find_by_id (claim db i (some d)).0 i ≡ some (accepted_by d (find_taxi db d.id) t))
unfolding accept_by_driver find_by_id
claim_of_waiting db i t d e w =
    after (accept_by_driver db i d (find_taxi db d.id)) (open_of_waiting i t db.trips e w)
      (find_by_id-accept db i d (find_taxi db d.id) t e w)
  where
    taxi : Option Taxi
    taxi = find_taxi db d.id

    after :
        (r : Db × ℕ)
        → (r.1 == 0) ≡ false
        → find_by_id r.0 i ≡ some (accepted_by d taxi t)
        → ((claimed i taxi r).1 ≡ ok tt)
          × (find_by_id (claimed i taxi r).0 i ≡ some (accepted_by d taxi t))
    after (x, zero) n row = cc
    after (x, suc k) n row = (
      refl,
      find-trips (clear_timer (set_taxi_busy x taxi) i) x i
            (clear_timer-trips (set_taxi_busy x taxi) i ∙ set_taxi_busy-trips x taxi)
          ∙ row,
    )

-- However many drivers accept a waiting trip at once, and in whatever order, exactly one of them wins:
-- the first whose UPDATE arrives. The trip is accepted by that driver, and the others change nothing.
pub one_claim_wins :
    (db : Db) (i : ℕ) (t : Trip) (d : Driver) (ds : List Driver)
    → find_by_id db i ≡ some t
    → is_waiting t.status ≡ true
    → let (after, winners) = run_claims db i (d ∷ ds) in
      (winners ≡ 1)
      × (after ≡ (claim db i (some d)).0)
      × (find_by_id after i ≡ some (accepted_by d (find_taxi db d.id) t))
unfolding run_claims
one_claim_wins db i t d ds e w =
    let (first, row) = claim_of_waiting db i t d e w in
    let rest = run_claims_of_IsTaken (claim db i (some d)).0 i ds (claim-IsTaken db i d) in
    (rw (rest, first), rw rest, rw rest row)

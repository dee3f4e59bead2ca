-- ===== src/Trips/Lifecycle/Moves.antt =====
-- What a successful change of status leaves behind (`updateTripStatus` of
-- src/application/trips/useCases.js), and that a refused one leaves nothing.
use oncall_backend_private.Prelude.{
  ℕ, zero, suc, ◌≡◌, refl, inl, inr, Bool, true, Option, none, some, arith, ◌∙◌, Bool-cases,
}
use oncall_backend_private.Schema.{
  Status, waiting_driver, accepted, arrived, in_progress, completed, cancelled, no_driver, unknown,
  Trip, Driver, Taxi, PaymentStatus, Db,
}
use oncall_backend_private.Sql.{update_where-none}
use oncall_backend_private.Wallet.{no_fault, process_payment, PaymentResult, is_success}
use oncall_backend_private.Wallet.Ledger.{process_payment-trips}
use oncall_backend_private.Fare.{settle_trip_duration, final_fare}
use oncall_backend_private.Trips.Rules.{
  is_waiting, is_cancellable, is_valid_status, acceptance_policy, assigned_driver_policy,
  cancellation_policy,
}
use oncall_backend_private.Trips.Repository.{
  find_by_id, update_trip, is_open, accepted_by, accept_by_driver, set_taxi_busy, reset_taxi_online,
  clear_timer, with_status, started, finished, with_payment_status, find_driver_by_phone, find_taxi,
}
use oncall_backend_private.Trips.Repository.Found.{find_by_id-update, find_by_id-accept}
use oncall_backend_private.Trips.Settlement.{
  Env, settle, record_payment, payment_status_of, settle_trip_distance,
}
use oncall_backend_private.Trips.Matching.{ok}
use oncall_backend_private.Trips.Lifecycle.{
  StatusCommand, claimed, claim, accept_branch, start_branch, complete_trip_row, complete_branch,
  cancel_branch, misc_branch, branch,
}

-- The trips table is found alike in databases with the same rows.
pub find-trips : (a b : Db) (i : ℕ) → a.trips ≡ b.trips → find_by_id a i ≡ find_by_id b i
unfolding find_by_id
find-trips a b i h = cc

pub reset_taxi_online-trips : (db : Db) (d : Option ℕ) → (reset_taxi_online db d).trips ≡ db.trips
unfolding reset_taxi_online
reset_taxi_online-trips db d = ground arith

pub set_taxi_busy-trips : (db : Db) (t : Option Taxi) → (set_taxi_busy db t).trips ≡ db.trips
unfolding set_taxi_busy
set_taxi_busy-trips db t = ground arith

pub clear_timer-trips : (db : Db) (i : ℕ) → (clear_timer db i).trips ≡ db.trips
unfolding clear_timer
clear_timer-trips db i = refl

-- A settlement changes the payment status of the trip, and no other column of any trip.
pub find-settle :
    (db : Db) (i fare : ℕ) (row t : Trip) (phone : Option ℕ)
    → find_by_id db i ≡ some t
    → (s : PaymentStatus) × (find_by_id (settle db i row phone fare) i
        ≡ some (with_payment_status s t))
unfolding settle
find-settle db i fare row t none e = (t.payment_status, e)
find-settle db i fare row t (some zero) e = (t.payment_status, e)
find-settle db i fare row t (some (suc p)) e =
    recorded (process_payment db i (suc p) fare row.payment_method no_fault)
      (find-trips _ db i (process_payment-trips db i (suc p) fare row.payment_method no_fault) ∙ e)
  where
    recorded :
        (r : Db × PaymentResult)
        → find_by_id r.0 i ≡ some t
        → (s : PaymentStatus) × (find_by_id (record_payment i (suc p) r) i
            ≡ some (with_payment_status s t))
    recorded (d, result) h = (
      payment_status_of (is_success result),
      find-trips _ (update_trip d i (with_payment_status (payment_status_of (is_success result)))) i
            refl
          ∙ find_by_id-update d i (with_payment_status (payment_status_of (is_success result))) t
              (λ x. refl) h,
    )

-- A move that the handler lets through, from the status of the row to the one asked for: only a
-- waiting trip is accepted and only a cancellable one cancelled; the rest asks nothing of the row.
unfoldable pub may_move : Status → Status → Bool
may_move old accepted = is_waiting old
may_move old cancelled = is_cancellable old
may_move old new = is_valid_status new

-- What a branch that was not refused does to the row.
abbrev pub Moved : Db → ℕ → Trip → Status → Type 0
Moved db i t s =
    (u : Trip) × (find_by_id db i ≡ some u) × (u.status ≡ s) × (may_move t.status s ≡ true)

start-Moved :
    (db : Db) (i phone now : ℕ) (t : Trip)
    → find_by_id db i ≡ some t
    → (start_branch db i t phone now).1 ≡ ok tt
    → Moved (start_branch db i t phone now).0 i t in_progress
unfolding start_branch assigned_driver_policy may_move
start-Moved db i phone now t e h = (
  started now t,
  ground (arith, find_by_id-update db i (started now) t (λ x. refl) e),
  refl,
  refl,
)

misc-Moved :
    (db : Db) (i phone : ℕ) (t : Trip) (s : Status)
    → find_by_id db i ≡ some t
    → (misc_branch db i t phone s).1 ≡ ok tt
    → find_by_id (misc_branch db i t phone s).0 i ≡ some (with_status s t)
unfolding misc_branch assigned_driver_policy
misc-Moved db i phone t s e h =
    ground (arith, find_by_id-update db i (with_status s) t (λ x. refl) e)

cancel-Moved :
    (db : Db) (i phone : ℕ) (t : Trip)
    → find_by_id db i ≡ some t
    → (cancel_branch db i t phone).1 ≡ ok tt
    → Moved (cancel_branch db i t phone).0 i t cancelled
unfolding cancel_branch cancellation_policy may_move
cancel-Moved db i phone t e h = (
  with_status cancelled t,
  ground (
    arith,
    find-trips (reset_taxi_online (update_trip db i (with_status cancelled)) t.driver_id)
        (update_trip db i (with_status cancelled)) i
        (reset_taxi_online-trips (update_trip db i (with_status cancelled)) t.driver_id),
    find_by_id-update db i (with_status cancelled) t (λ x. refl) e,
  ),
  refl,
  ground arith,
)

-- The completion of a row: its status, whatever the payment came to.
complete-row :
    (env : Env) (db : Db) (i now : ℕ) (t : Trip)
    → find_by_id db i ≡ some t
    → (u : Trip) × (find_by_id (complete_trip_row env db i t now) i ≡ some u)
      × (u.status ≡ completed)
unfolding complete_trip_row
complete-row env db i now t e =
    let distance = settle_trip_distance env t.route t in
    let minutes = settle_trip_duration t.start_time now in
    let fare = final_fare env.hour distance minutes t.estimated_fare in
    let (s, h) =
      find-settle (update_trip db i (finished fare distance minutes)) i fare t
        (finished fare distance minutes t) t.user_phone
        (find_by_id-update db i (finished fare distance minutes) t (λ x. refl) e) in
    (
      with_payment_status s (finished fare distance minutes t),
      find-trips _ _ i (reset_taxi_online-trips _ t.driver_id) ∙ h,
      refl,
    )

complete-Moved :
    (env : Env) (db : Db) (i phone now : ℕ) (t : Trip)
    → find_by_id db i ≡ some t
    → (complete_branch env db i t phone now).1 ≡ ok tt
    → Moved (complete_branch env db i t phone now).0 i t completed
unfolding complete_branch assigned_driver_policy may_move complete_trip_row
complete-Moved env db i phone now t e h =
    let (u, found, status) = complete-row env db i now t e in (u, ground arith, status, refl)

pub accept_by_driver-none :
    (db : Db) (i : ℕ) (d : Driver) (taxi : Option Taxi)
    → (accept_by_driver db i d taxi).1 ≡ 0
    → (accept_by_driver db i d taxi).0 ≡ db
unfolding accept_by_driver
accept_by_driver-none db i d taxi h =
    ground (arith, update_where-none (is_open i) (accepted_by d taxi) db.trips h)

claim-Moved :
    (db : Db) (i : ℕ) (t : Trip) (o : Option Driver)
    → find_by_id db i ≡ some t
    → is_waiting t.status ≡ true
    → (claim db i o).1 ≡ ok tt
    → (u : Trip) × (find_by_id (claim db i o).0 i ≡ some u) × (u.status ≡ accepted)
claim-Moved db i t none e w h = cc
claim-Moved db i t (some d) e w h =
    let taxi = find_taxi db d.id in
    let row = find_by_id-accept db i d taxi t e w in
    (accepted_by d taxi t, after (accept_by_driver db i d taxi) row h, refl)
  where
    after :
        (r : Db × ℕ)
        → find_by_id r.0 i ≡ some (accepted_by d (find_taxi db d.id) t)
        → (claimed i (find_taxi db d.id) r).1 ≡ ok tt
        → find_by_id (claimed i (find_taxi db d.id) r).0 i
          ≡ some (accepted_by d (find_taxi db d.id) t)
    after (x, zero) row h = cc
    after (x, suc n) row h =
        find-trips _ x i (clear_timer-trips _ i ∙ set_taxi_busy-trips x (find_taxi db d.id)) ∙ row

accept-Moved :
    (db : Db) (i phone : ℕ) (t : Trip)
    → find_by_id db i ≡ some t
    → (accept_branch db i t phone).1 ≡ ok tt
    → Moved (accept_branch db i t phone).0 i t accepted
unfolding accept_branch acceptance_policy may_move
accept-Moved db i phone t e h = elim (Bool-cases (is_waiting t.status)) [
  | inl w ↦
      let (u, found, status) = claim-Moved db i t (find_driver_by_phone db phone) e w (rw w at h) in
      (u, rw w found, status, w)
  | inr n ↦ ground (arith, n)
]

pub branch-Moved :
    (env : Env) (db : Db) (c : StatusCommand) (now : ℕ) (t : Trip) (s : Status)
    → is_valid_status s ≡ true
    → find_by_id db c.trip_id ≡ some t
    → (branch env db c now t s).1 ≡ ok tt
    → Moved (branch env db c now t s).0 c.trip_id t s
unfolding branch may_move
branch-Moved env db c now t accepted v e h = accept-Moved db c.trip_id c.actor_phone t e h
branch-Moved env db c now t in_progress v e h = start-Moved db c.trip_id c.actor_phone now t e h
branch-Moved env db c now t completed v e h =
    complete-Moved env db c.trip_id c.actor_phone now t e h
branch-Moved env db c now t cancelled v e h = cancel-Moved db c.trip_id c.actor_phone t e h
branch-Moved env db c now t waiting_driver v e h = (
  with_status waiting_driver t,
  misc-Moved db c.trip_id c.actor_phone t waiting_driver e h,
  refl,
  refl,
)
branch-Moved env db c now t arrived v e h =
    (with_status arrived t, misc-Moved db c.trip_id c.actor_phone t arrived e h, refl, refl)
branch-Moved env db c now t no_driver v e h = cc
branch-Moved env db c now t unknown v e h = cc

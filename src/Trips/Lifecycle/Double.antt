-- ===== src/Trips/Lifecycle/Double.antt =====
-- The charge of a completed trip (`updateTripStatus`, src/application/trips/useCases.js, and the
-- settlement of src/infrastructure/gateways/tripGateways.js).
use oncall_backend_private.Prelude.{ℕ, suc, ◌-◌, ◌≤◌, ◌≡◌, refl, Option, some, arith, ◌∙◌, ==_refl}
use oncall_backend_private.Schema.{wallet, Trip, Driver, Status, completed, Db}
use oncall_backend_private.Fare.{settle_trip_duration, final_fare}
use oncall_backend_private.Wallet.{PaymentResult, no_fault, get_balance, process_payment}
use oncall_backend_private.Wallet.Ledger.{payment_recorded, get_balance-users}
use oncall_backend_private.Trips.Rules.{
  driver, state_transition_authorization, assigned_driver_policy,
}
use oncall_backend_private.Trips.Repository.{
  find_by_id, update_trip, finished, find_driver_by_phone, reset_taxi_online,
}
use oncall_backend_private.Trips.Settlement.{Env, settle_trip_distance, settle, record_payment}
use oncall_backend_private.Trips.Matching.{ok}
use oncall_backend_private.Trips.Lifecycle.Moves.{branch-Moved}
use oncall_backend_private.Trips.Lifecycle.{
  StatusCommand, complete_trip_row, complete_branch, branch, announce, update_trip_status,
}

-- The fare that the completion of a row comes to.
abbrev pub fare_of : Env → Trip → ℕ → ℕ
fare_of env t now =
    final_fare env.hour (settle_trip_distance env t.route t) (settle_trip_duration t.start_time now)
      t.estimated_fare

reset_taxi_online-users : (db : Db) (d : Option ℕ) → (reset_taxi_online db d).users ≡ db.users
unfolding reset_taxi_online
reset_taxi_online-users db d = ground arith

announce-users :
    (env : Env) (db : Db) (i : ℕ) (s : Status) (u : Trip) → (announce env db i s u).users ≡ db.users
unfolding announce
announce-users env db i s u = ground arith

record_payment-balance :
    (d : Db) (i p : ℕ) (result : PaymentResult)
    → get_balance (record_payment i (suc p) (d, result)) (suc p) ≡ get_balance d (suc p)
unfolding record_payment update_trip get_balance
record_payment-balance d i p result = refl

-- The settlement of a trip that the wallet covers takes its fare.
settle-balance :
    (db : Db) (i p fare b : ℕ) (row : Trip) (phone : Option ℕ)
    → phone ≡ some (suc p)
    → row.payment_method ≡ wallet
    → get_balance db (suc p) ≡ some b
    → fare ≤ b
    → get_balance (settle db i row phone fare) (suc p) ≡ some (b - fare)
unfolding settle
settle-balance db i p fare b row phone q w e h =
    rw (q, w)
      (recorded (process_payment db i (suc p) fare wallet no_fault)
        (payment_recorded db i (suc p) fare b e h).1)
  where
    recorded :
        (r : Db × PaymentResult)
        → get_balance r.0 (suc p) ≡ some (b - fare)
        → get_balance (record_payment i (suc p) r) (suc p) ≡ some (b - fare)
    recorded (d, result) g = rw (record_payment-balance d i p result) g

complete_row-balance :
    (env : Env) (db : Db) (i now p b : ℕ) (t : Trip)
    → t.user_phone ≡ some (suc p)
    → t.payment_method ≡ wallet
    → get_balance db (suc p) ≡ some b
    → fare_of env t now ≤ b
    → get_balance (complete_trip_row env db i t now) (suc p) ≡ some (b - fare_of env t now)
unfolding complete_trip_row
complete_row-balance env db i now p b t u w e h =
    let row = update_trip db i (
      finished (fare_of env t now) (settle_trip_distance env t.route t)
        (settle_trip_duration t.start_time now)) in
    get_balance-users _ (settle row i t t.user_phone (fare_of env t now)) (suc p)
      (reset_taxi_online-users _ t.driver_id)
    ∙ settle-balance row i p (fare_of env t now) b t t.user_phone u w
        (get_balance-users row db (suc p) (unfold update_trip in refl) ∙ e) h

completed-branch :
    (env : Env) (db : Db) (c : StatusCommand) (now : ℕ) (t : Trip) (d : Driver)
    → find_driver_by_phone db c.actor_phone ≡ some d
    → t.driver_id ≡ some d.id
    → branch env db c now t completed ≡ (complete_trip_row env db c.trip_id t now, ok tt)
unfolding branch complete_branch assigned_driver_policy complete_trip_row
completed-branch env db c now t d e h = rw (e, h) (rw (==_refl d.id))

completed-result :
    (env : Env) (db : Db) (c : StatusCommand) (now : ℕ) (t v : Trip)
    → c.status ≡ completed
    → c.actor_type ≡ driver
    → find_by_id db c.trip_id ≡ some t
    → branch env db c now t completed ≡ (complete_trip_row env db c.trip_id t now, ok tt)
    → find_by_id (branch env db c now t completed).0 c.trip_id ≡ some v
    → update_trip_status env db c now
      ≡ (announce env (complete_trip_row env db c.trip_id t now) c.trip_id completed v, ok v)
unfolding update_trip_status state_transition_authorization
completed-result env db c now t v s a e done found = ground arith

-- A completion by the driver of the trip is accepted whatever the status of the trip, completed and
-- cancelled included, and each time takes the fare from a wallet that covers it: two completions of
-- one trip are two charges.
pub completion_charges :
    (env : Env) (db : Db) (c : StatusCommand) (now p b : ℕ) (t : Trip) (d : Driver)
    → c.status ≡ completed
    → c.actor_type ≡ driver
    → find_by_id db c.trip_id ≡ some t
    → find_driver_by_phone db c.actor_phone ≡ some d
    → t.driver_id ≡ some d.id
    → t.user_phone ≡ some (suc p)
    → t.payment_method ≡ wallet
    → get_balance db (suc p) ≡ some b
    → fare_of env t now ≤ b
    → (v : Trip) × ((update_trip_status env db c now).1 ≡ ok v)
      × (get_balance (update_trip_status env db c now).0 (suc p) ≡ some (b - fare_of env t now))
completion_charges env db c now p b t d s a e f assigned u w g h =
    let done = completed-branch env db c now t d f assigned in
    let (v, found, status, move) = branch-Moved env db c now t completed refl e (rw done) in
    let result = completed-result env db c now t v s a e done found in
    (
      v,
      rw result,
      rw result (
          get_balance-users _ (complete_trip_row env db c.trip_id t now) (suc p)
            (announce-users env _ c.trip_id completed v)
          ∙ complete_row-balance env db c.trip_id now p b t u w g h),
    )

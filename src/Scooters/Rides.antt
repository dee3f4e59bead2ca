-- ===== src/Scooters/Rides.antt =====
-- What `endRide` of src/application/scooters/useCases.js comes to, and `settleRide` of
-- src/domain/scooters/scooterPolicies.js.
use mathlib.Core.Option
use oncall_backend_private.Prelude.{
  ℕ, ◌+◌, ◌*◌, ◌≤◌, ◌≡◌, refl, ap, ◌∙◌, max, Option, none, some, arith, if◌then◌else◌,
}
use oncall_backend_private.Sql.{select_first-update_where, select_first_sound}
use oncall_backend_private.Schema.{ℤ}
use oncall_backend_private.Wallet.Deduction.{UniquePhones}
use oncall_backend_private.Wallet.Ledger.{wallet_total, ledger_spent, charge_conserves}
use oncall_backend_private.Scooters.Rules.{
  Fleet, Scooter, ScooterRejection, done, denied, lock_policy, settle_ride,
}
use oncall_backend_private.Scooters.Repository.{
  is_scooter, find_scooter, set_available, returned, end_ride_record,
}
use oncall_backend_private.Scooters.Usage.{
  Receipt, settlement_of, close_ride, gate_end, end_by, end_ride,
}

-- A ride lasts a minute at least and costs 50 fils a minute, 500 at least; the battery never ends above
-- where it was, or above the floor of 5 %, and never below that floor.
pub settle_ride-bounds :
    (start_time end_time battery : ℕ)
    → let settled = settle_ride start_time end_time battery in
      (1 ≤ settled.duration_minutes)
      × (settled.fare ≡ max 500 (settled.duration_minutes * 50))
      × (5 ≤ settled.new_battery)
      × (settled.new_battery ≤ max 5 battery)
unfolding settle_ride
settle_ride-bounds start_time end_time battery = (omega arith, refl, omega arith, omega arith)

-- A longer ride costs no less and leaves no more battery.
pub settle_ride_mono :
    (start_time end_time later battery : ℕ)
    → end_time ≤ later
    → ((settle_ride start_time end_time battery).fare ≤ (settle_ride start_time later battery).fare)
      × ((settle_ride start_time later battery).new_battery
          ≤ (settle_ride start_time end_time battery).new_battery)
unfolding settle_ride
settle_ride_mono start_time end_time later battery h = (omega (arith, h), omega (arith, h))

find_scooter-returned :
    (fleet : Fleet) (i phone : ℕ) (end_lat end_lng : Option ℤ) (now : ℕ) (s : Scooter)
    → find_scooter fleet i ≡ some s
    → find_scooter (close_ride fleet i phone end_lat end_lng now s) i
      ≡ some (returned (settlement_of s now).new_battery end_lat end_lng s.lat s.lng s)
unfolding find_scooter close_ride set_available end_ride_record
find_scooter-returned fleet i phone end_lat end_lng now s e =
    select_first-update_where (is_scooter i) (is_scooter i)
      (returned (settlement_of s now).new_battery end_lat end_lng s.lat s.lng) fleet.scooters
      (λ x. refl)
    ∙ ap
        (Option.map (λ a.
          if is_scooter i a
          then returned (settlement_of s now).new_battery end_lat end_lng s.lat s.lng a
          else a))
        e
    ∙ ap
        (λ b. some (
          if b
          then returned (settlement_of s now).new_battery end_lat end_lng s.lat s.lng s
          else s))
        (select_first_sound (is_scooter i) fleet.scooters s e)

policy-rider :
    (s : Scooter) (phone : ℕ) → lock_policy s phone ≡ none → s.current_user_phone ≡ some phone
unfolding lock_policy
policy-rider s phone e = ground (arith, e)

gated :
    (fleet : Fleet) (i phone : ℕ) (end_lat end_lng : Option ℤ) (now : ℕ) (r : Receipt) (s : Scooter)
    → find_scooter fleet i ≡ some s
    → (g : Option ScooterRejection) → lock_policy s phone ≡ g
    → (gate_end fleet i phone end_lat end_lng now s g).1 ≡ done r
    → (s.current_user_phone ≡ some phone)
      × (r.duration ≡ (settlement_of s now).duration_minutes)
      × (r.fare ≡ (settlement_of s now).fare)
      × (find_scooter (gate_end fleet i phone end_lat end_lng now s g).0 i
          ≡ some (returned (settlement_of s now).new_battery end_lat end_lng s.lat s.lng s))
gated fleet i phone end_lat end_lng now r s q (some code) g e = ground (arith, e)
gated fleet i phone end_lat end_lng now r s q none g e = (
  policy-rider s phone g,
  ground (arith, e),
  ground (arith, e),
  find_scooter-returned fleet i phone end_lat end_lng now s q,
)

-- An accepted end of a ride was asked by the rider; it leaves the scooter available, with no rider and the
-- battery of the settlement, and bills that settlement.
pub ride_ended :
    (fleet : Fleet) (i phone : ℕ) (end_lat end_lng : Option ℤ) (now : ℕ) (r : Receipt)
    → (end_ride fleet i phone end_lat end_lng now).1 ≡ done r
    → (s : Scooter) × (find_scooter fleet i ≡ some s)
      × (s.current_user_phone ≡ some phone)
      × (r.duration ≡ (settlement_of s now).duration_minutes)
      × (r.fare ≡ (settlement_of s now).fare)
      × (find_scooter (end_ride fleet i phone end_lat end_lng now).0 i
          ≡ some (returned (settlement_of s now).new_battery end_lat end_lng s.lat s.lng s))
unfolding end_ride
ride_ended fleet i phone end_lat end_lng now r = split (find_scooter fleet i) refl
  where
    split :
        (o : Option Scooter)
        → find_scooter fleet i ≡ o
        → (end_by fleet i phone end_lat end_lng now o).1 ≡ done r
        → (s : Scooter) × (o ≡ some s)
          × (s.current_user_phone ≡ some phone)
          × (r.duration ≡ (settlement_of s now).duration_minutes)
          × (r.fare ≡ (settlement_of s now).fare)
          × (find_scooter (end_by fleet i phone end_lat end_lng now o).0 i
              ≡ some (returned (settlement_of s now).new_battery end_lat end_lng s.lat s.lng s))
    split none q e = ground (arith, e)
    split (some s) q e =
        (let (rider, lasted, cost, back) =
            gated fleet i phone end_lat end_lng now r s q (lock_policy s phone) refl e in
          (s, refl, rider, lasted, cost, back))

-- Where no two users share a phone, ending a ride, accepted or not, makes and loses no money: what
-- leaves the wallets is what the ledger of payments gains.
pub end_ride_conserves :
    (fleet : Fleet) (i phone : ℕ) (end_lat end_lng : Option ℤ) (now : ℕ)
    → UniquePhones fleet.db.users
    → let after = (end_ride fleet i phone end_lat end_lng now).0.db in
      wallet_total after.users + ledger_spent after.transactions
      ≡ wallet_total fleet.db.users + ledger_spent fleet.db.transactions
unfolding end_ride close_ride set_available end_ride_record
end_ride_conserves fleet i phone end_lat end_lng now u = split (find_scooter fleet i)
  where
    Kept : Fleet → Type 0
    Kept after =
        wallet_total after.db.users + ledger_spent after.db.transactions
        ≡ wallet_total fleet.db.users + ledger_spent fleet.db.transactions

    gates :
        (s : Scooter) (g : Option ScooterRejection)
        → Kept (gate_end fleet i phone end_lat end_lng now s g).0
    gates s (some code) = refl
    gates s none = charge_conserves fleet.db phone (settlement_of s now).fare u

    split : (o : Option Scooter) → Kept (end_by fleet i phone end_lat end_lng now o).0
    split none = refl
    split (some s) = gates s (lock_policy s phone)

-- An end that is denied changes nothing.
pub end_denied :
    (fleet : Fleet) (i phone : ℕ) (end_lat end_lng : Option ℤ) (now : ℕ) (c : ScooterRejection)
    → (end_ride fleet i phone end_lat end_lng now).1 ≡ denied c
    → (end_ride fleet i phone end_lat end_lng now).0 ≡ fleet
unfolding end_ride
end_denied fleet i phone end_lat end_lng now c = split (find_scooter fleet i)
  where
    gates :
        (s : Scooter) (g : Option ScooterRejection)
        → (gate_end fleet i phone end_lat end_lng now s g).1 ≡ denied c
        → (gate_end fleet i phone end_lat end_lng now s g).0 ≡ fleet
    gates s (some code) e = refl
    gates s none e = ground (arith, e)

    split :
        (o : Option Scooter)
        → (end_by fleet i phone end_lat end_lng now o).1 ≡ denied c
        → (end_by fleet i phone end_lat end_lng now o).0 ≡ fleet
    split none e = refl
    split (some s) e = gates s (lock_policy s phone) e

-- ===== src/Wallet/Ledger.antt =====
-- What a charge does to balances and ledger (src/repositories/WalletRepository.js,
-- src/services/payment.js).
use oncall_backend_private.Prelude.{
  ℕ, ◌+◌, ◌-◌, ◌≤◌, ◌<◌, ◌≡◌, refl, inl, inr, none, some, List, [], ◌∷◌, ◌==◌, if◌then◌else◌, arith,
  ==_refl, Bool-cases, Option, Option-cases, ap, leb,
}
use oncall_backend_private.Sql.{select_first, update_where, changes, update_where-none}
use oncall_backend_private.Schema.{
  User, Transaction, TransactionType, trip_payment, cash_payment, scooter_payment, deposit,
  PaymentMethod, cash, wallet, other_method, Db,
}
use oncall_backend_private.Wallet.{
  has_phone, balance_of, get_balance, can_afford, take_balance, deduct_balance_safe, paid_wallet,
  refused, after_deduction, process_payment, charge, PaymentFault, no_fault, deduction_throws,
  log_throws,
}
use oncall_backend_private.Wallet.Deduction.{
  UniquePhones, users_after, changes_of_user, none_of_absent, same_phone, changes_of_poor,
}

-- A wallet payment that the balance covers takes the fare and writes the ledger row of the balances
-- really seen: the balance before (which the code recomputes from the one after) and the one after.
pub payment_recorded :
    (db : Db) (trip phone amount b : ℕ)
    → get_balance db phone ≡ some b
    → amount ≤ b
    → let (after, result) = process_payment db trip phone amount wallet no_fault in
      (result ≡ paid_wallet (b - amount))
      × (get_balance after phone ≡ some (b - amount))
      × (after.transactions
          ≡ record {
            phone = phone;
            type = trip_payment;
            amount = amount;
            balance_before = b;
            balance_after = b - amount;
            trip_id = some trip;
          }
            ∷ db.transactions)
unfolding process_payment after_deduction deduct_balance_safe get_balance
payment_recorded db trip phone amount b e h = ground (
  arith,
  changes_of_user phone amount db.users b,
  users_after phone amount phone db.users b,
  ==_refl phone,
)

-- Where no two users share a phone, a wallet payment that the balance does not cover is refused
-- and changes nothing at all.
pub payment_refused :
    (db : Db) (trip phone amount b : ℕ)
    → UniquePhones db.users
    → get_balance db phone ≡ some b
    → b < amount
    → process_payment db trip phone amount wallet no_fault ≡ (db, refused)
unfolding process_payment after_deduction deduct_balance_safe get_balance
payment_refused db trip phone amount b d e h =
    let untouched : changes (can_afford phone amount) db.users ≡ 0 =
      changes_of_poor phone amount db.users d b e h in
    rw (
      untouched,
      update_where-none (can_afford phone amount) (take_balance amount) db.users untouched,
    )

-- The money in all wallets.
pub wallet_total : List User → ℕ
wallet_total [] = 0
wallet_total (u ∷ us) = u.balance + wallet_total us

-- What the ledger says left the wallets: its rows of trip and scooter payments, and no other type.
abbrev pub left_wallet : Transaction → ℕ
left_wallet t = spent t.type t.amount
  where
    spent : TransactionType → ℕ → ℕ
    spent trip_payment n = n
    spent scooter_payment n = n
    spent cash_payment n = 0
    spent deposit n = 0

pub ledger_spent : List Transaction → ℕ
ledger_spent [] = 0
ledger_spent (t ∷ ts) = left_wallet t + ledger_spent ts

total_of_absent :
    (phone amount : ℕ) (us : List User)
    → select_first (has_phone phone) us ≡ none
    → wallet_total (update_where (can_afford phone amount) (take_balance amount) us)
      ≡ wallet_total us
unfolding wallet_total select_first update_where
total_of_absent phone amount [] e = refl
total_of_absent phone amount (u ∷ us) e = ground (arith, total_of_absent phone amount us)

total_after :
    (phone amount : ℕ) (us : List User)
    → UniquePhones us
    → wallet_total (update_where (can_afford phone amount) (take_balance amount) us)
        + (if changes (can_afford phone amount) us == 0 then 0 else amount)
      ≡ wallet_total us
unfolding wallet_total update_where changes
total_after phone amount [] d = omega arith
total_after phone amount (u ∷ us) d = elim (Bool-cases (u.phone == phone)) [
  | inl same ↦ ground (
    arith,
    same_phone u phone us d.0,
    none_of_absent phone amount us,
    total_of_absent phone amount us,
    total_after phone amount us d.1,
  )
  | inr differs ↦ ground (arith, total_after phone amount us d.1)
]

-- What a wallet with that balance, if the user exists, loses by an amount.
abbrev pub taken_from : Option ℕ → ℕ → ℕ
taken_from none amount = 0
taken_from (some b) amount = if leb amount b then amount else 0

-- What a payment takes and no row of the ledger tells: a fare that the wallet covers, where the
-- INSERT throws after the deduction.
abbrev pub unrecorded : Option ℕ → ℕ → PaymentMethod → PaymentFault → ℕ
unrecorded balance amount wallet log_throws = taken_from balance amount
unrecorded balance amount _ _ = 0

deducted :
    (db : Db) (phone amount : ℕ)
    → UniquePhones db.users
    → (if changes (can_afford phone amount) db.users == 0 then 0 else amount)
      ≡ taken_from (get_balance db phone) amount
unfolding get_balance
deducted db phone amount d = elim (Option-cases (select_first (has_phone phone) db.users)) [
  | inl e ↦ ground (arith, e, none_of_absent phone amount db.users e)
  | inr (u, e) ↦ ground (
    arith,
    e,
    changes_of_user phone amount db.users u.balance (ap balance_of e),
    changes_of_poor phone amount db.users d u.balance (ap balance_of e),
  )
]

-- Where no two users share a phone, what leaves the wallets in a payment, whatever its method and whichever
-- of its statements throws, is what the ledger's rows of trip and scooter payments gain, but for one
-- case: where the INSERT throws after a deduction that the balance covers, the fare is gone and no row
-- tells. A payment whose statements throw in that way is answered as refused.
pub payment_conserves :
    (db : Db) (trip phone amount : ℕ) (method : PaymentMethod) (fault : PaymentFault)
    → UniquePhones db.users
    → let after = (process_payment db trip phone amount method fault).0 in
      (wallet_total after.users
          + ledger_spent after.transactions
          + unrecorded (get_balance db phone) amount method fault
        ≡ wallet_total db.users + ledger_spent db.transactions)
      × ((process_payment db trip phone amount method log_throws).1 ≡ refused)
unfolding process_payment after_deduction deduct_balance_safe ledger_spent
payment_conserves db trip phone amount wallet no_fault d =
    ground (arith, total_after phone amount db.users d)
payment_conserves db trip phone amount wallet deduction_throws d = ground arith
payment_conserves db trip phone amount wallet log_throws d =
    ground (arith, total_after phone amount db.users d, deducted db phone amount d)
payment_conserves db trip phone amount cash no_fault d = ground arith
payment_conserves db trip phone amount cash deduction_throws d = ground arith
payment_conserves db trip phone amount cash log_throws d = ground arith
payment_conserves db trip phone amount other_method fault d = ground arith

pub charge_conserves :
    (db : Db) (phone amount : ℕ)
    → UniquePhones db.users
    → let after = (charge db phone amount).0 in
      wallet_total after.users + ledger_spent after.transactions
      ≡ wallet_total db.users + ledger_spent db.transactions
unfolding charge deduct_balance_safe ledger_spent
charge_conserves db phone amount d = ground (arith, total_after phone amount db.users d)

-- A payment touches no table but `users` and `transactions`.
pub process_payment-trips :
    (db : Db) (trip phone amount : ℕ) (method : PaymentMethod) (fault : PaymentFault)
    → (process_payment db trip phone amount method fault).0.trips ≡ db.trips
unfolding process_payment after_deduction deduct_balance_safe
process_payment-trips db trip phone amount wallet no_fault = ground arith
process_payment-trips db trip phone amount wallet deduction_throws = refl
process_payment-trips db trip phone amount wallet log_throws = ground arith
process_payment-trips db trip phone amount cash no_fault = refl
process_payment-trips db trip phone amount cash deduction_throws = refl
process_payment-trips db trip phone amount cash log_throws = refl
process_payment-trips db trip phone amount other_method fault = refl

-- A balance is read from `users` alone.
pub get_balance-users :
    (a b : Db) (phone : ℕ) → a.users ≡ b.users → get_balance a phone ≡ get_balance b phone
unfolding get_balance
get_balance-users a b phone h = cc

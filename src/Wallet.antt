-- ===== src/Wallet.antt =====
-- The wallet: src/repositories/WalletRepository.js and src/services/payment.js. The balance of a user
-- is a column of `users`; every charge is one conditional UPDATE, and a row of `transactions`.
pub mod Deduction
pub mod Ledger
pub mod Commerce
use oncall_backend_private.Prelude.{
  ℕ, zero, suc, ◌+◌, ◌-◌, ◌≤◌, ◌≡◌, Bool, true, false, ◌&&◌, Option, none, some, List, [], ◌∷◌, leb,
  ◌==◌, if◌then◌else◌,
}
use oncall_backend_private.Sql.{select_first, update_where, changes}
use oncall_backend_private.Schema.{
  User, Transaction, TransactionType, trip_payment, cash_payment, scooter_payment, PaymentMethod,
  cash, wallet, other_method, Db,
}

abbrev pub has_phone : ℕ → User → Bool
has_phone phone u = u.phone == phone

abbrev pub balance_of : Option User → Option ℕ
balance_of none = none
balance_of (some u) = some u.balance

-- `getBalance`.
unfoldable pub get_balance : Db → ℕ → Option ℕ
get_balance db phone = balance_of (select_first (has_phone phone) db.users)

abbrev pub can_afford : ℕ → ℕ → User → Bool
can_afford phone amount u = has_phone phone u && leb amount u.balance

abbrev pub take_balance : ℕ → User → User
take_balance amount u = record u { balance = u.balance - amount }

-- `row ? row.balance : 0`.
abbrev pub balance_or_zero : Option ℕ → ℕ
balance_or_zero none = 0
balance_or_zero (some b) = b

-- `deductBalanceSafe`: one UPDATE that tests and takes; `some` carries `balanceAfter`.
unfoldable pub deduct_balance_safe : Db → ℕ → ℕ → Db × Option ℕ
unfolding get_balance
deduct_balance_safe db phone amount =
    let after = record db {
      users = update_where (can_afford phone amount) (take_balance amount) db.users;
    } in
    if changes (can_afford phone amount) db.users == 0
    then (after, none)
    else (after, some (balance_or_zero (get_balance after phone)))

-- `logTransaction`; the newest row stands first.
abbrev pub log_transaction : Db → Transaction → Db
log_transaction db t = record db { transactions = t ∷ db.transactions }

pub data PaymentResult : Type 0 where
  paid_wallet : ℕ → PaymentResult
  paid_cash : PaymentResult
  refused : PaymentResult

abbrev pub is_success : PaymentResult → Bool
is_success (paid_wallet _) = true
is_success paid_cash = true
is_success refused = false

abbrev wallet_entry : TransactionType → ℕ → ℕ → ℕ → Option ℕ → Transaction
wallet_entry type phone amount after trip = record {
  phone = phone;
  type = type;
  amount = amount;
  balance_before = after + amount;
  balance_after = after;
  trip_id = trip;
}

-- Which statement of a payment throws, if any: the UPDATE of the wallet, or a later one (the read of the
-- new balance, the INSERT of the ledger row).
pub data PaymentFault : Type 0 where
  no_fault deduction_throws log_throws : PaymentFault

-- What follows a deduction: the ledger row, if it succeeded. The catch answers a failed INSERT with
-- success: false and takes nothing back.
unfoldable pub after_deduction : PaymentFault → ℕ → ℕ → ℕ → Db × Option ℕ → Db × PaymentResult
after_deduction fault trip phone amount (db, none) = (db, refused)
after_deduction log_throws trip phone amount (db, some after) = (db, refused)
after_deduction _ trip phone amount (db, some after) = (
  log_transaction db (wallet_entry trip_payment phone amount after (some trip)),
  paid_wallet after,
)

abbrev pay_wallet : Db → ℕ → ℕ → ℕ → PaymentFault → Db × PaymentResult
pay_wallet db trip phone amount deduction_throws = (db, refused)
pay_wallet db trip phone amount fault =
    after_deduction fault trip phone amount (deduct_balance_safe db phone amount)

abbrev pay_cash : Db → ℕ → ℕ → ℕ → PaymentFault → Db × PaymentResult
pay_cash db trip phone amount log_throws = (db, refused)
pay_cash db trip phone amount _ = (
  log_transaction db (record {
    phone = phone;
    type = cash_payment;
    amount = amount;
    balance_before = 0;
    balance_after = 0;
    trip_id = some trip;
  }),
  paid_cash,
)

-- `processPayment`, with the statement that throws.
unfoldable pub process_payment : Db → ℕ → ℕ → ℕ → PaymentMethod → PaymentFault → Db × PaymentResult
unfolding after_deduction
process_payment db trip phone amount wallet fault = pay_wallet db trip phone amount fault
process_payment db trip phone amount cash fault = pay_cash db trip phone amount fault
process_payment db trip phone amount other_method fault = (db, refused)

-- `charge` of src/infrastructure/gateways/scooterGateways.js: best effort, logged on success only.
unfoldable pub charge : Db → ℕ → ℕ → Db × Bool
charge db phone amount = logged (deduct_balance_safe db phone amount)
  where
    logged : Db × Option ℕ → Db × Bool
    logged (d, none) = (d, false)
    logged (d, some after) =
        (log_transaction d (wallet_entry scooter_payment phone amount after none), true)

-- ===== src/Wallet/Commerce.antt =====
-- The wallet use cases, src/application/commerce/useCases.js, with the policies of
-- src/domain/commerce/commercePolicies.js. An amount is in fils, none where it is no finite number. What other calls
-- do to the tables while the charge waits is a parameter (Waits). The audit record and the texts are left out.
pub mod Charges
use oncall_backend_private.Prelude.{
  ℕ, zero, suc, ◌+◌, ◌-◌, ◌≤◌, ◌≡◌, Bool, true, false, not, ◌&&◌, ◌||◌, Option, none, some, List,
  [], ◌∷◌, ltb, leb, ◌==◌, if◌then◌else◌, keep, take,
}
use oncall_backend_private.Sql.{select_first, select_all, update_where}
use oncall_backend_private.Schema.{
  User, Transaction, TransactionType, trip_payment, cash_payment, scooter_payment, deposit,
  PaymentMethod, cash, wallet, other_method, wallet_charge, Notice, Db,
}
use oncall_backend_private.Wallet.{has_phone, get_balance, balance_or_zero, log_transaction}

pub data CommerceRejection : Type 0 where
  bad_amount gateway_unavailable user_not_found balance_not_found forbidden : CommerceRejection
  insufficient_funds unsupported_method : CommerceRejection

-- `MAX_CHARGE`, 500 KWD.
abbrev pub max_charge : ℕ
max_charge = 500000

-- `paymentValidationPolicy`: the amount, if it is allowed.
unfoldable pub payment_validation_policy : Option ℕ → Option ℕ
payment_validation_policy none = none
payment_validation_policy (some amount) =
    if ltb 0 amount && leb amount max_charge then some amount else none

-- `balancePolicy`.
unfoldable pub balance_policy : ℕ → ℕ → Bool
balance_policy balance amount = leb amount balance

-- `settlementPolicy`: whether the balance moves, and the type of the ledger row.
unfoldable pub settlement_policy : PaymentMethod → Option (Bool × TransactionType)
settlement_policy wallet = some (true, trip_payment)
settlement_policy cash = some (false, cash_payment)
settlement_policy other_method = none

-- `ledgerConsistencyPolicy`.
unfoldable pub ledger_consistency_policy : Transaction → Bool
ledger_consistency_policy t = elim t.type [
  | deposit ↦ t.balance_after == t.balance_before + t.amount
  | trip_payment ↦ t.balance_after + t.amount == t.balance_before
  | cash_payment ↦ t.balance_before == t.balance_after
  | scooter_payment ↦ false
]

-- `ownershipPolicy`.
abbrev pub ownership_policy : ℕ → ℕ → Bool
ownership_policy param_phone auth_phone = param_phone == auth_phone

abbrev pub gain_balance : ℕ → User → User
gain_balance amount u = record u { balance = u.balance + amount }

-- `addBalance`.
unfoldable pub add_balance : Db → ℕ → ℕ → Db
add_balance db phone amount = record db {
  users = update_where (has_phone phone) (gain_balance amount) db.users;
}

-- `getTransactions`; the newest row stands first.
unfoldable pub get_transactions : Db → ℕ → ℕ → List Transaction
get_transactions db phone limit = take limit (select_all (λ t. t.phone == phone) db.transactions)

-- What other calls do before the balance is added, before it is read again, and before the row is written.
pub record Waits : Type 0 where
  pub before_add : Db → Db
  pub before_read : Db → Db
  pub before_log : Db → Db

pub data CommerceAnswer : Type 0 where
  charged : ℕ → ℕ → CommerceAnswer
  rejected : CommerceRejection → CommerceAnswer

abbrev pub or_else : Option ℕ → ℕ → ℕ
or_else none fallback = fallback
or_else (some b) fallback = b

-- What follows the second reading of the balance.
unfoldable pub after_charge : Db → ℕ → ℕ → ℕ → ℕ → Db × CommerceAnswer
after_charge db phone amount before after =
    let row : Transaction = record {
      phone = phone;
      type = deposit;
      amount = amount;
      balance_before = before;
      balance_after = after;
      trip_id = none;
    } in
    let logged = log_transaction db row in
    let notice : Notice = record { phone = phone; type = wallet_charge; trip_id = none } in
    (record logged { notifications = notice ∷ logged.notifications }, charged after amount)

-- `chargeWallet`.
unfoldable pub charge_wallet : Bool → Waits → Db → ℕ → Option ℕ → Db × CommerceAnswer
charge_wallet is_enabled waits db phone amount = elim (payment_validation_policy amount) [
  | none ↦ (db, rejected bad_amount)
  | some n ↦
      if not is_enabled then (db, rejected gateway_unavailable) else elim (get_balance db phone) [
        | none ↦ (db, rejected user_not_found)
        | some before ↦
            let added = waits.before_read (add_balance (waits.before_add db) phone n) in
            after_charge (waits.before_log added) phone n before
              (or_else (get_balance added phone) (before + n))
      ]
]

-- `getWalletTransactions`: the balance, and the last 50 rows.
unfoldable pub get_wallet_transactions : Db → ℕ → ℕ → Option (ℕ × List Transaction)
get_wallet_transactions db param_phone auth_phone =
    if ownership_policy param_phone auth_phone
    then some (balance_or_zero (get_balance db auth_phone), get_transactions db auth_phone 50)
    else none

pub data BalanceAnswer : Type 0 where
  balance : ℕ → BalanceAnswer
  no_balance : CommerceRejection → BalanceAnswer

-- `getWalletBalance`.
unfoldable pub get_wallet_balance : Db → ℕ → ℕ → BalanceAnswer
get_wallet_balance db param_phone auth_phone =
    if not (ownership_policy param_phone auth_phone)
    then no_balance forbidden
    else elim (get_balance db auth_phone) [
      | none ↦ no_balance balance_not_found
      | some b ↦ balance b
    ]

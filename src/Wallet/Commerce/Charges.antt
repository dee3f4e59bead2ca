-- ===== src/Wallet/Commerce/Charges.antt =====
-- What chargeWallet of src/application/commerce/useCases.js does to balances and ledger, also when a payment of the
-- same user comes between its statements.
use oncall_backend_private.Prelude.{
  ℕ, ◌+◌, ◌-◌, ◌≤◌, ◌<◌, ◌≡◌, refl, ap, sym, subst, true, none, some, Option, List, [], ◌∷◌, ◌==◌,
  if◌then◌else◌, arith, ==_refl, ==_iff, Bool-cases, inl, inr,
}
use oncall_backend_private.Sql.{select_first, update_where}
use oncall_backend_private.Schema.{User, Transaction, deposit, Db}
use oncall_backend_private.Wallet.{has_phone, balance_of, get_balance, deduct_balance_safe}
use oncall_backend_private.Wallet.Deduction.{deduct_success}
use oncall_backend_private.Wallet.Commerce.{
  max_charge, payment_validation_policy, ledger_consistency_policy, gain_balance, add_balance,
  Waits, charged, or_else, after_charge, charge_wallet,
}

plus : ℕ → Option ℕ → Option ℕ
plus amount none = none
plus amount (some b) = some (b + amount)

users_gained :
    (phone amount other : ℕ) (us : List User)
    → balance_of
        (select_first (has_phone other) (update_where (has_phone phone) (gain_balance amount) us))
      ≡ (if other == phone
          then plus amount (balance_of (select_first (has_phone other) us))
          else balance_of (select_first (has_phone other) us))
unfolding select_first update_where plus
users_gained phone amount other [] = ground arith
users_gained phone amount other (u ∷ us) = ground (arith, users_gained phone amount other us)

-- What an addition does to every balance.
add_balance-get_balance :
    (db : Db) (phone amount other b : ℕ)
    → get_balance db phone ≡ some b
    → get_balance (add_balance db phone amount) other
      ≡ (if other == phone then some (b + amount) else get_balance db other)
unfolding get_balance add_balance plus
add_balance-get_balance db phone amount other b h = elim (Bool-cases (other == phone)) [
  | inl e ↦
      let same : get_balance db other ≡ some b =
        subst (λ p. get_balance db p ≡ some b) (sym ((==_iff other phone).0 e)) h in
      ground (arith, e, same, users_gained phone amount other db.users)
  | inr e ↦ ground (arith, e, users_gained phone amount other db.users)
]

deduct-transactions :
    (db : Db) (phone amount : ℕ)
    → (deduct_balance_safe db phone amount).0.transactions ≡ db.transactions
unfolding deduct_balance_safe
deduct-transactions db phone amount = ground arith

-- A payment of an amount between the first reading of the balance and the addition.
abbrev pub paying : ℕ → ℕ → Waits
paying phone amount = record {
  before_add = λ db. (deduct_balance_safe db phone amount).0;
  before_read = λ db. db;
  before_log = λ db. db;
}

-- A charge that is allowed adds the amount to the balance of the user and changes no other balance, also when a
-- payment of the user that the balance covers comes between its first reading and its UPDATE. It writes one row on
-- the ledger, with the balance that it read first and the one that it read last: the row is consistent in the sense
-- of `ledgerConsistencyPolicy` when nothing was paid between the two, and only then.
pub charge_wallet-ledger :
    (db : Db) (phone amount paid other b : ℕ)
    → get_balance db phone ≡ some b
    → paid ≤ b
    → 0 < amount
    → amount ≤ max_charge
    → let (after, answer) = charge_wallet true (paying phone paid) db phone (some amount) in
      let row : Transaction = record {
        phone = phone;
        type = deposit;
        amount = amount;
        balance_before = b;
        balance_after = b - paid + amount;
        trip_id = none;
      } in
      (answer ≡ charged (b - paid + amount) amount)
      × (get_balance after other
          ≡ (if other == phone then some (b - paid + amount) else get_balance db other))
      × (after.transactions ≡ row ∷ db.transactions)
      × (ledger_consistency_policy row ≡ (paid == 0))
unfolding charge_wallet payment_validation_policy after_charge ledger_consistency_policy add_balance
    get_balance
charge_wallet-ledger db phone amount paid other b h covered low high =
    let less = (deduct_balance_safe db phone paid).0 in
    let (_, own) = deduct_success db phone paid phone b h covered in
    let (_, seen) = deduct_success db phone paid other b h covered in
    let own_balance : get_balance less phone ≡ some (b - paid) =
      ground (arith, own, ==_refl phone) in
    let gained = add_balance-get_balance less phone amount phone (b - paid) own_balance in
    let after = add_balance less phone amount in
    let read : or_else (get_balance after phone) (b + amount) ≡ b - paid + amount =
      ground (arith, gained, ==_refl phone) in
    let at : after_charge after phone amount b (b - paid + amount)
        ≡ charge_wallet true (paying phone paid) db phone (some amount) =
      ground (arith, h, low, high, ap (after_charge after phone amount b) (sym read)) in
    subst
      (λ x.
        (x.1 ≡ charged (b - paid + amount) amount)
        × (get_balance x.0 other
            ≡ (if other == phone then some (b - paid + amount) else get_balance db other))
        × (x.0.transactions
            ≡ record {
              phone = phone;
              type = deposit;
              amount = amount;
              balance_before = b;
              balance_after = b - paid + amount;
              trip_id = none;
            }
              ∷ db.transactions)
        × (((b - paid + amount) == (b + amount)) ≡ (paid == 0)))
      at
      (
        refl,
        ground
            (arith, seen, add_balance-get_balance less phone amount other (b - paid) own_balance),
        ground (arith, deduct-transactions db phone paid),
        ground (arith, covered),
      )

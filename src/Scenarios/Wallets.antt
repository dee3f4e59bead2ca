-- ===== src/Scenarios/Wallets.antt =====
-- Scenarios of the wallet and the fares.
use oncall_backend_private.Prelude.{◌+◌, ◌≡◌, refl, arith, none, some, false, true, [], ◌∷◌}
use oncall_backend_private.Schema.{wallet, deposit, Transaction}
use oncall_backend_private.Wallet.Commerce.{charged, charge_wallet, ledger_consistency_policy}
use oncall_backend_private.Wallet.Commerce.Charges.{paying, charge_wallet-ledger}
use oncall_backend_private.Wallet.{get_balance, log_throws, refused, process_payment}
use oncall_backend_private.Wallet.Ledger.{wallet_total, ledger_spent, unrecorded, payment_conserves}
use oncall_backend_private.Scenarios.{town}

payment_conserves_example :
    let after = (process_payment town 3 50 1200 wallet log_throws).0 in
    (wallet_total after.users
        + ledger_spent after.transactions
        + unrecorded (get_balance town 50) 1200 wallet log_throws
      ≡ wallet_total town.users + ledger_spent town.transactions)
    × ((process_payment town 3 50 1200 wallet log_throws).1 ≡ refused)
unfolding oncall_backend_private.Sql.select_first
payment_conserves_example = payment_conserves town 3 50 1200 wallet log_throws (refl, tt)

charge_wallet-ledger_example :
    let (after, answer) = charge_wallet true (paying 50 200) town 50 (some 700) in
    let row : Transaction = record {
      phone = 50;
      type = deposit;
      amount = 700;
      balance_before = 5000;
      balance_after = 5500;
      trip_id = none;
    } in
    (answer ≡ charged 5500 700)
    × (get_balance after 50 ≡ some 5500)
    × (after.transactions ≡ row ∷ [])
    × (ledger_consistency_policy row ≡ false)
unfolding get_balance oncall_backend_private.Sql.select_first
charge_wallet-ledger_example =
    charge_wallet-ledger town 50 700 200 50 5000 refl (omega arith) (omega arith) (omega arith)

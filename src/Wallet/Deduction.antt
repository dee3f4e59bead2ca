-- ===== src/Wallet/Deduction.antt =====
-- What the UPDATE of a deduction does to the users (src/repositories/WalletRepository.js).
use oncall_backend_private.Prelude.{
  ℕ, ◌-◌, ◌≤◌, ◌<◌, ◌≡◌, refl, inl, inr, true, false, none, some, List, [], ◌∷◌, ◌==◌,
  if◌then◌else◌, arith, ==_refl, ==_iff, subst, Bool-cases,
}
use oncall_backend_private.Sql.{select_first, update_where, changes}
use oncall_backend_private.Schema.{User, Db}
use oncall_backend_private.Wallet.{
  has_phone, balance_of, get_balance, can_afford, take_balance, deduct_balance_safe,
}

-- A deduction is not seen by another phone.
users_other :
    (phone amount other : ℕ) (us : List User)
    → (other == phone) ≡ false
    → balance_of (
        select_first
          (has_phone other)
          (update_where (can_afford phone amount) (take_balance amount) us))
      ≡ balance_of (select_first (has_phone other) us)
unfolding select_first update_where
users_other phone amount other [] h = refl
users_other phone amount other (u ∷ us) h = ground (arith, users_other phone amount other us)

-- The users table after a deduction that is covered, seen by any phone.
pub users_after :
    (phone amount other : ℕ) (us : List User) (b : ℕ)
    → balance_of (select_first (has_phone phone) us) ≡ some b
    → amount ≤ b
    → balance_of (
        select_first
          (has_phone other)
          (update_where (can_afford phone amount) (take_balance amount) us))
      ≡ (if other == phone
          then some (b - amount)
          else balance_of (select_first (has_phone other) us))
unfolding select_first update_where
users_after phone amount other [] b e h = ground arith
users_after phone amount other (u ∷ us) b e h =
    ground (arith, users_after phone amount other us b, users_other phone amount other us)

-- One that is not covered: no row is touched, if no phone stands in two rows.
pub changes_of_user :
    (phone amount : ℕ) (us : List User) (b : ℕ)
    → balance_of (select_first (has_phone phone) us) ≡ some b
    → amount ≤ b
    → (changes (can_afford phone amount) us == 0) ≡ false
unfolding changes select_first
changes_of_user phone amount [] b e h = ground arith
changes_of_user phone amount (u ∷ us) b e h = ground (arith, changes_of_user phone amount us b)

-- A deduction that the balance covers succeeds, reports the new balance, takes the amount from that
-- user and nothing from any other.
pub deduct_success :
    (db : Db) (phone amount other b : ℕ)
    → get_balance db phone ≡ some b
    → amount ≤ b
    → ((deduct_balance_safe db phone amount).1 ≡ some (b - amount))
      × (get_balance (deduct_balance_safe db phone amount).0 other
          ≡ (if other == phone then some (b - amount) else get_balance db other))
unfolding deduct_balance_safe get_balance
deduct_success db phone amount other b e h = ground (
  arith,
  changes_of_user phone amount db.users b,
  users_after phone amount other db.users b,
  users_after phone amount phone db.users b,
  ==_refl phone,
)

-- No phone stands in two rows (the UNIQUE constraint of `users.phone`).
abbrev pub UniquePhones : List User → Type 0
UniquePhones [] = Unit {0}
UniquePhones (u ∷ us) = (select_first (has_phone u.phone) us ≡ none) × UniquePhones us

pub none_of_absent :
    (phone amount : ℕ) (us : List User)
    → select_first (has_phone phone) us ≡ none
    → changes (can_afford phone amount) us ≡ 0
unfolding changes select_first
none_of_absent phone amount [] e = refl
none_of_absent phone amount (u ∷ us) e = ground (arith, none_of_absent phone amount us)

pub same_phone :
    (u : User) (phone : ℕ) (us : List User)
    → select_first (has_phone u.phone) us ≡ none
    → (u.phone == phone) ≡ true
    → select_first (has_phone phone) us ≡ none
same_phone u phone us e h =
    subst (λ p. select_first (has_phone p) us ≡ none) ((==_iff u.phone phone).0 h) e

pub changes_of_poor :
    (phone amount : ℕ) (us : List User)
    → UniquePhones us
    → (b : ℕ) → balance_of (select_first (has_phone phone) us) ≡ some b
    → b < amount
    → changes (can_afford phone amount) us ≡ 0
unfolding changes select_first
changes_of_poor phone amount [] d b e h = ground arith
changes_of_poor phone amount (u ∷ us) d b e h = elim (Bool-cases (u.phone == phone)) [
  | inl same ↦ ground (arith, none_of_absent phone amount us, same_phone u phone us)
  | inr differs ↦ ground (arith, changes_of_poor phone amount us d.1 b)
]

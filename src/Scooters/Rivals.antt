-- ===== src/Scooters/Rivals.antt =====
-- The unlocks of scooters (`unlockScooter`, src/application/scooters/useCases.js) that come while one is
-- ridden.
use oncall_backend_private.Prelude.{
  ℕ, zero, suc, ◌≡◌, refl, ap, ◌∙◌, inl, inr, false, Option, none, some, List, [], ◌∷◌, arith,
  Option-cases,
}
use oncall_backend_private.Sql.{
  select_first, changes, select_first-update_where, update_where, update_where-none,
}
use oncall_backend_private.Schema.{User}
use oncall_backend_private.Wallet.{has_phone}
use oncall_backend_private.Scooters.Rules.{
  Fleet, Scooter, Answer, denied, ScooterRejection, is_available, unlock_policy, user_not_found,
  not_available, unlock_race_lost,
}
use oncall_backend_private.Scooters.Repository.{
  is_scooter, is_free_scooter, find_scooter, taken_by, set_riding, create_ride,
}
use oncall_backend_private.Scooters.Usage.{unlocked, gate_unlock, unlock_by, unlock_scooter}

-- What others do while a scooter is ridden: a whole call of `unlockScooter` for some scooter, or the rest of
-- one whose checks had passed on an earlier reading, from its UPDATE on.
pub data Rival : Type 0 where
  calls resumes : (scooter phone now : ℕ) → Rival

unfoldable pub rival : Fleet → Rival → Fleet × Answer ℕ
rival fleet (calls i phone now) = unlock_scooter fleet i phone now
rival fleet (resumes i phone now) = gate_unlock fleet i phone now none

unfoldable pub rivals : Fleet → List Rival → Fleet
rivals fleet [] = fleet
rivals fleet (x ∷ xs) = rivals (rival fleet x).0 xs

-- A scooter that is taken: its row, and no row of its id is free.
abbrev pub IsTaken : ℕ → Scooter → Fleet → Type 0
IsTaken i s fleet =
    (find_scooter fleet i ≡ some s)
    × (is_available s.status ≡ false)
    × (changes (is_free_scooter i) fleet.scooters ≡ 0)

-- The UPDATE of an unlock frees no row.
riding_frees_none :
    (i j phone start : ℕ) (ss : List Scooter)
    → changes (is_free_scooter i) ss ≡ 0
    → changes (is_free_scooter i) (update_where (is_free_scooter j) (taken_by phone start) ss) ≡ 0
unfolding changes update_where
riding_frees_none i j phone start [] e = refl
riding_frees_none i j phone start (s ∷ ss) e =
    ground (arith, e, riding_frees_none i j phone start ss)

pub riding_leaves_none :
    (i phone start : ℕ) (ss : List Scooter)
    → changes (is_free_scooter i) (update_where (is_free_scooter i) (taken_by phone start) ss) ≡ 0
unfolding changes update_where
riding_leaves_none i phone start [] = refl
riding_leaves_none i phone start (s ∷ ss) = ground (arith, riding_leaves_none i phone start ss)

set_riding-IsTaken :
    (i j phone start : ℕ) (s : Scooter) (fleet : Fleet)
    → IsTaken i s fleet
    → IsTaken i s (set_riding fleet j phone start).0
unfolding set_riding find_scooter
set_riding-IsTaken i j phone start s fleet (found, busy, none_free) = (
  ground (
    arith,
    select_first-update_where (is_scooter i) (is_free_scooter j) (taken_by phone start)
        fleet.scooters (λ x. refl),
    found,
    busy,
  ),
  busy,
  riding_frees_none i j phone start fleet.scooters none_free,
)

pub unlocked-scooters :
    (i phone start : ℕ) (r : Fleet × ℕ) → (unlocked i phone start r).0.scooters ≡ r.0.scooters
unfolding create_ride
unlocked-scooters i phone start (fleet, zero) = refl
unlocked-scooters i phone start (fleet, suc n) = refl

IsTaken-scooters :
    (i : ℕ) (s : Scooter) (f g : Fleet) → g.scooters ≡ f.scooters → IsTaken i s f → IsTaken i s g
unfolding find_scooter
IsTaken-scooters i s f g same (found, busy, none_free) = (
  ap (select_first (is_scooter i)) same ∙ found,
  busy,
  ap (changes (is_free_scooter i)) same ∙ none_free,
)

gate_unlock-IsTaken :
    (i j phone now : ℕ) (s : Scooter) (fleet : Fleet) (g : Option ScooterRejection)
    → IsTaken i s fleet
    → IsTaken i s (gate_unlock fleet j phone now g).0
gate_unlock-IsTaken i j phone now s fleet (some code) h = h
gate_unlock-IsTaken i j phone now s fleet none h =
    IsTaken-scooters i s (set_riding fleet j phone now).0 (gate_unlock fleet j phone now none).0
      (unlocked-scooters j phone now (set_riding fleet j phone now))
      (set_riding-IsTaken i j phone now s fleet h)

rival-IsTaken :
    (i : ℕ) (s : Scooter) (fleet : Fleet) (x : Rival)
    → IsTaken i s fleet
    → IsTaken i s (rival fleet x).0
unfolding rival unlock_scooter
rival-IsTaken i s fleet (resumes j phone now) h = gate_unlock-IsTaken i j phone now s fleet none h
rival-IsTaken i s fleet (calls j phone now) h =
    split (find_scooter fleet j) (select_first (has_phone phone) fleet.db.users)
  where
    split : (o : Option Scooter) (p : Option User) → IsTaken i s (unlock_by fleet j phone now o p).0
    split none p = h
    split (some x) none = h
    split (some x) (some u) =
        gate_unlock-IsTaken i j phone now s fleet (unlock_policy x u.balance) h

pub rivals-IsTaken :
    (i : ℕ) (s : Scooter) (fleet : Fleet) (xs : List Rival)
    → IsTaken i s fleet
    → IsTaken i s (rivals fleet xs)
unfolding rivals
rivals-IsTaken i s fleet [] h = h
rivals-IsTaken i s fleet (x ∷ xs) h =
    rivals-IsTaken i s (rival fleet x).0 xs (rival-IsTaken i s fleet x h)

pub set_riding-none :
    (fleet : Fleet) (i phone start : ℕ)
    → changes (is_free_scooter i) fleet.scooters ≡ 0
    → (set_riding fleet i phone start).0 ≡ fleet
unfolding set_riding
set_riding-none fleet i phone start h =
    ap (λ x. record fleet { scooters = x })
      (update_where-none (is_free_scooter i) (taken_by phone start) fleet.scooters h)

policy-busy :
    (s : Scooter) (balance : ℕ)
    → is_available s.status ≡ false
    → unlock_policy s balance ≡ some not_available
unfolding unlock_policy
policy-busy s balance h = ground (arith, h)

pub taken-denied :
    (i phone now : ℕ) (s : Scooter) (fleet : Fleet)
    → IsTaken i s fleet
    → ((c : ScooterRejection) × (rival fleet (calls i phone now) ≡ (fleet, denied c)))
      × (rival fleet (resumes i phone now) ≡ (fleet, denied unlock_race_lost))
unfolding rival unlock_scooter set_riding
taken-denied i phone now s fleet (found, busy, none_free) = (
  elim (Option-cases (select_first (has_phone phone) fleet.db.users)) [
    | inl u ↦ (
      user_not_found,
      ap (λ o. unlock_by fleet i phone now o (select_first (has_phone phone) fleet.db.users)) found
          ∙ ap (unlock_by fleet i phone now (some s)) u,
    )
    | inr (u, k) ↦ (
      not_available,
      ap (λ o. unlock_by fleet i phone now o (select_first (has_phone phone) fleet.db.users)) found
          ∙ ap (unlock_by fleet i phone now (some s)) k
          ∙ ap (gate_unlock fleet i phone now) (policy-busy s u.balance busy),
    )
  ],
  ap (λ n. unlocked i phone now ((set_riding fleet i phone now).0, n)) none_free
      ∙ ap (λ f. (f, denied unlock_race_lost)) (set_riding-none fleet i phone now none_free),
)

-- ===== src/Scooters/Unlock.antt =====
-- What `unlockScooter` of src/application/scooters/useCases.js comes to.
use oncall_backend_private.Prelude.{
  ℕ, zero, suc, ◌++◌, ◌≤◌, ◌≡◌, refl, ap, ◌∙◌, true, Option, none, some, List, [], ◌∷◌, arith,
}
use oncall_backend_private.Sql.{
  select_first, changes, select_first-update_where, select_first_sound,
}
use oncall_backend_private.Schema.{User}
use oncall_backend_private.Wallet.{has_phone}
use oncall_backend_private.Scooters.Rules.{
  Fleet, Scooter, done, denied, ScooterRejection, is_available, unlock_policy, unlock_race_lost,
  Answer,
}
use oncall_backend_private.Scooters.Repository.{
  is_scooter, is_free_scooter, find_scooter, taken_by, set_riding, new_ride, create_ride,
}
use oncall_backend_private.Scooters.Usage.{unlocked, gate_unlock, unlock_by, unlock_scooter}
use oncall_backend_private.Scooters.Rivals.{
  Rival, calls, resumes, rival, rivals, IsTaken, set_riding-none, riding_leaves_none,
  unlocked-scooters, rivals-IsTaken, taken-denied,
}

policy-open :
    (s : Scooter) (balance : ℕ)
    → unlock_policy s balance ≡ none
    → (is_available s.status ≡ true) × (500 ≤ balance) × (10 ≤ s.battery)
unfolding unlock_policy
policy-open s balance e = (ground (arith, e), ground (arith, e), ground (arith, e))

policy-free :
    (s : Scooter) (balance : ℕ)
    → is_available s.status ≡ true
    → 500 ≤ balance
    → 10 ≤ s.battery
    → unlock_policy s balance ≡ none
unfolding unlock_policy
policy-free s balance a b c = ground (arith, a, b, c)

find_scooter-riding :
    (fleet : Fleet) (i phone start : ℕ) (s : Scooter)
    → find_scooter fleet i ≡ some s
    → is_available s.status ≡ true
    → find_scooter (set_riding fleet i phone start).0 i ≡ some (taken_by phone start s)
unfolding find_scooter set_riding
find_scooter-riding fleet i phone start s e w = ground (
  arith,
  select_first-update_where (is_scooter i) (is_free_scooter i) (taken_by phone start) fleet.scooters
      (λ x. refl),
  select_first_sound (is_scooter i) fleet.scooters s,
  e,
)

unlocked-done :
    (i phone start ride : ℕ) (r : Fleet × ℕ)
    → (unlocked i phone start r).1 ≡ done ride
    → ((unlocked i phone start r).0.scooters ≡ r.0.scooters)
      × ((unlocked i phone start r).0.rides ≡ r.0.rides ++ new_ride ride i phone start ∷ [])
unfolding create_ride
unlocked-done i phone start ride (fleet, zero) e = ground (arith, e)
unlocked-done i phone start ride (fleet, suc n) e =
    (refl, ap (λ k. fleet.rides ++ new_ride k i phone start ∷ []) (ground (arith, e)))

gated :
    (fleet : Fleet) (i phone now ride balance : ℕ) (s : Scooter)
    → find_scooter fleet i ≡ some s
    → (g : Option ScooterRejection) → unlock_policy s balance ≡ g
    → (gate_unlock fleet i phone now g).1 ≡ done ride
    → (is_available s.status ≡ true)
      × (500 ≤ balance)
      × (10 ≤ s.battery)
      × (find_scooter (gate_unlock fleet i phone now g).0 i ≡ some (taken_by phone now s))
      × ((gate_unlock fleet i phone now g).0.rides ≡ fleet.rides ++ new_ride ride i phone now ∷ [])
unfolding find_scooter set_riding
gated fleet i phone now ride balance s q (some code) g e = ground (arith, e)
gated fleet i phone now ride balance s q none g e =
    let after = unlocked-done i phone now ride (set_riding fleet i phone now) e in
    (
      (policy-open s balance g).0,
      (policy-open s balance g).1,
      (policy-open s balance g).2,
      ap (select_first (is_scooter i)) after.0
          ∙ find_scooter-riding fleet i phone now s q (policy-open s balance g).0,
      after.1,
    )

-- An unlock that succeeds found the scooter available, with a battery of 10 % at least and 500 fils at
-- least in the actor's wallet; it leaves the scooter ridden by the actor from that moment, with an active
-- ride at the end of the rides.
pub unlock_taken :
    (fleet : Fleet) (i phone now ride : ℕ)
    → (unlock_scooter fleet i phone now).1 ≡ done ride
    → (s : Scooter) × (u : User) × (find_scooter fleet i ≡ some s)
      × (select_first (has_phone phone) fleet.db.users ≡ some u)
      × (is_available s.status ≡ true)
      × (500 ≤ u.balance)
      × (10 ≤ s.battery)
      × (find_scooter (unlock_scooter fleet i phone now).0 i ≡ some (taken_by phone now s))
      × ((unlock_scooter fleet i phone now).0.rides ≡ fleet.rides ++ new_ride ride i phone now ∷ [])
unfolding unlock_scooter
unlock_taken fleet i phone now ride =
    split (find_scooter fleet i) refl (select_first (has_phone phone) fleet.db.users)
  where
    split :
        (o : Option Scooter)
        → find_scooter fleet i ≡ o
        → (p : Option User) → (unlock_by fleet i phone now o p).1 ≡ done ride
        → (s : Scooter) × (u : User) × (o ≡ some s)
          × (p ≡ some u)
          × (is_available s.status ≡ true)
          × (500 ≤ u.balance)
          × (10 ≤ s.battery)
          × (find_scooter (unlock_by fleet i phone now o p).0 i ≡ some (taken_by phone now s))
          × ((unlock_by fleet i phone now o p).0.rides
              ≡ fleet.rides ++ new_ride ride i phone now ∷ [])
    split none q p e = ground (arith, e)
    split (some s) q none e = ground (arith, e)
    split (some s) q (some u) e =
        (let (unused, enough, charged, ridden, recorded) =
            gated fleet i phone now ride u.balance s q (unlock_policy s u.balance) refl e in
          (s, u, refl, refl, unused, enough, charged, ridden, recorded))

unlocked-denied :
    (fleet : Fleet) (i phone start : ℕ) (c : ScooterRejection) (n : ℕ)
    → changes (is_free_scooter i) fleet.scooters ≡ n
    → (unlocked i phone start ((set_riding fleet i phone start).0, n)).1 ≡ denied c
    → (unlocked i phone start ((set_riding fleet i phone start).0, n)).0 ≡ fleet
unlocked-denied fleet i phone start c zero h e = set_riding-none fleet i phone start h
unlocked-denied fleet i phone start c (suc n) h e = ground (arith, e)

-- An unlock that is denied, for whatever reason, changes nothing.
pub unlock_denied :
    (fleet : Fleet) (i phone now : ℕ) (c : ScooterRejection)
    → (unlock_scooter fleet i phone now).1 ≡ denied c
    → (unlock_scooter fleet i phone now).0 ≡ fleet
unfolding unlock_scooter set_riding
unlock_denied fleet i phone now c =
    split (find_scooter fleet i) (select_first (has_phone phone) fleet.db.users)
  where
    gates :
        (g : Option ScooterRejection)
        → (gate_unlock fleet i phone now g).1 ≡ denied c
        → (gate_unlock fleet i phone now g).0 ≡ fleet
    gates (some code) e = refl
    gates none e =
        unlocked-denied fleet i phone now c (changes (is_free_scooter i) fleet.scooters) refl e

    split :
        (o : Option Scooter) (p : Option User)
        → (unlock_by fleet i phone now o p).1 ≡ denied c
        → (unlock_by fleet i phone now o p).0 ≡ fleet
    split none p e = refl
    split (some s) none e = refl
    split (some s) (some u) e = gates (unlock_policy s u.balance) e

unlock-IsTaken :
    (fleet : Fleet) (i phone now ride : ℕ)
    → (unlock_scooter fleet i phone now).1 ≡ done ride
    → (s : Scooter) × IsTaken i (taken_by phone now s) (unlock_scooter fleet i phone now).0
unfolding unlock_scooter set_riding
unlock-IsTaken fleet i phone now ride e =
    let (s, u, found, user, free, enough, charged, ridden, recorded) =
      unlock_taken fleet i phone now ride e in
    let gate = policy-free s u.balance free enough charged in
    let at : unlock_scooter fleet i phone now
        ≡ unlocked i phone now (set_riding fleet i phone now) =
      ap (λ o. unlock_by fleet i phone now o (select_first (has_phone phone) fleet.db.users)) found
      ∙ ap (unlock_by fleet i phone now (some s)) user
      ∙ ap (gate_unlock fleet i phone now) gate in
    (
      s,
      (
        ridden,
        refl,
        ap (λ (r : Fleet × Answer ℕ). changes (is_free_scooter i) r.0.scooters) at
            ∙ ap (changes (is_free_scooter i))
                (unlocked-scooters i phone now (set_riding fleet i phone now))
            ∙ riding_leaves_none i phone now fleet.scooters,
      ),
    )

-- Once an unlock has succeeded, and whatever unlocks of any scooters come after it, whole or from their
-- UPDATE on, the scooter is still ridden by the one who unlocked it, and a further unlock of it is denied
-- and changes nothing: a whole call, and also one that had passed its checks before and is at its UPDATE.
pub unlock_excludes :
    (fleet : Fleet) (i phone now ride : ℕ) (others : List Rival) (other later : ℕ)
    → (unlock_scooter fleet i phone now).1 ≡ done ride
    → let after = rivals (unlock_scooter fleet i phone now).0 others in
      ((s : Scooter) × (find_scooter after i ≡ some (taken_by phone now s)))
      × ((c : ScooterRejection) × (rival after (calls i other later) ≡ (after, denied c)))
      × (rival after (resumes i other later) ≡ (after, denied unlock_race_lost))
unlock_excludes fleet i phone now ride others other later e =
    let (s, taken) = unlock-IsTaken fleet i phone now ride e in
    let after = rivals (unlock_scooter fleet i phone now).0 others in
    let kept =
      rivals-IsTaken i (taken_by phone now s) (unlock_scooter fleet i phone now).0 others taken in
    let (whole, rest) = taken-denied i other later (taken_by phone now s) after kept in
    ((s, kept.0), whole, rest)

-- ===== src/Rates/Bounds.antt =====
-- How much the algorithms of src/domain/ratelimit/algorithms.js admit.
use native.Mathlib.Nat.{add-mul}
use oncall_backend_private.Prelude.{
  ℕ, ◌+◌, ◌-◌, ◌*◌, ◌/◌, ◌≤◌, ◌≡◌, sym, subst, Bool, true, false, ◌&&◌, Option, some, List, [], ◌∷◌,
  ◌==◌, if◌then◌else◌, arith,
}
use oncall_backend_private.Rates.{
  RatePolicy, capacity, Admission, stored, count_in, fixed_window, token_bucket, leaky_bucket,
}

-- The cost that requests are admitted for, each some time after the one before, as `consume` of the service
-- runs an algorithm on the stored state.
module _ {S : Type 0} (run : Option S → ℕ → ℕ → Admission S) where
  unfoldable pub admitted : Option S → ℕ → List (ℕ × ℕ) → ℕ
  admitted state now [] = 0
  admitted state now ((wait, cost) ∷ rs) =
      let a = run state (now + wait) cost in
      let rest = admitted (some (stored a)) (now + wait) rs in
      if a.allowed then cost + rest else rest

-- The time that requests take.
unfoldable pub duration : List (ℕ × ℕ) → ℕ
duration [] = 0
duration ((wait, cost) ∷ rs) = wait + duration rs

paid :
    (b : Bool) (cost rest window limit s left wait time : ℕ)
    → s + (if b then cost * window else 0) ≤ left + wait * limit
    → rest * window ≤ s + time * limit
    → (if b then cost + rest else rest) * window ≤ left + (wait + time) * limit
paid true cost rest window limit s left wait time h g =
    omega (arith, h, g, add-mul cost rest window, add-mul wait time limit)
paid false cost rest window limit s left wait time h g =
    omega (arith, h, g, add-mul wait time limit)

-- What an algorithm that spends a credit can admit: the credit grows by the limit in every part of time.
module _ (p : RatePolicy) (run : Option (ℕ × ℕ) → ℕ → ℕ → Admission (ℕ × ℕ)) (credit : ℕ → ℕ)
    (spends : (left now wait cost : ℕ)
      → let a = run (some (left, now)) (now + wait) cost in
        credit (stored a).0 + (if a.allowed then cost * p.window else 0)
        ≤ credit left + wait * p.limit)
    (dated : (left now wait cost : ℕ)
      → (stored (run (some (left, now)) (now + wait) cost)).1 ≡ now + wait) where
  credit_bounds :
      (left now : ℕ) (rs : List (ℕ × ℕ))
      → admitted run (some (left, now)) now rs * p.window ≤ credit left + duration rs * p.limit
  unfolding admitted duration
  credit_bounds left now [] = omega arith
  credit_bounds left now ((wait, cost) ∷ rs) =
      let a = run (some (left, now)) (now + wait) cost in
      let rest : admitted run (some (stored a)) (now + wait) rs * p.window
          ≤ credit (stored a).0 + duration rs * p.limit =
        subst
          (λ t.
            admitted run (some ((stored a).0, t)) (now + wait) rs * p.window
            ≤ credit (stored a).0 + duration rs * p.limit)
          (sym (dated left now wait cost)) (credit_bounds (stored a).0 (now + wait) rs) in
      paid a.allowed cost (admitted run (some (stored a)) (now + wait) rs) p.window p.limit
        (credit (stored a).0) (credit left) wait (duration rs) (spends left now wait cost) rest

-- Whatever requests come, a token bucket admits no more than its tokens and what the rate adds, and a leaky bucket no
-- more than the room in it and what the rate lets out, in the time that the requests take.
pub bucket_bounds :
    (p : RatePolicy) (left level now : ℕ) (rs : List (ℕ × ℕ))
    → (admitted (token_bucket p) (some (left, now)) now rs * p.window
        ≤ left + duration rs * p.limit)
      × (admitted (leaky_bucket p) (some (level, now)) now rs * p.window
          ≤ (capacity p * p.window - level) + duration rs * p.limit)
unfolding token_bucket leaky_bucket
bucket_bounds p left level now rs = (
  credit_bounds p (token_bucket p) (λ n. n) (λ l n w c. ground arith) (λ l n w c. ground arith) left
      now rs,
  credit_bounds p (leaky_bucket p) (λ n. capacity p * p.window - n) (λ l n w c. ground arith)
      (λ l n w c. ground arith) level now rs,
)

-- Every request falls in the window that starts at a time.
unfoldable pub in_window : RatePolicy → ℕ → ℕ → List (ℕ × ℕ) → Bool
in_window p start now [] = true
in_window p start now ((wait, cost) ∷ rs) =
    (now + wait) / p.window * p.window == start && in_window p start (now + wait) rs

-- The requests of one window are admitted for no more than the capacity, less what the window has counted before.
pub fixed_window_bounds :
    (p : RatePolicy) (state : Option (ℕ × ℕ)) (start now : ℕ) (rs : List (ℕ × ℕ))
    → in_window p start now rs ≡ true
    → admitted (fixed_window p) state now rs ≤ capacity p - count_in state start
unfolding admitted fixed_window in_window
fixed_window_bounds p state start now [] h = omega arith
fixed_window_bounds p state start now ((wait, cost) ∷ rs) h =
    let a = fixed_window p state (now + wait) cost in
    let same : ((now + wait) / p.window * p.window == start) ≡ true = ground (arith, h) in
    ground (arith, same, h, fixed_window_bounds p (some (stored a)) start (now + wait) rs)

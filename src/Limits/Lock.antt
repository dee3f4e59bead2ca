-- ===== src/Limits/Lock.antt =====
-- The lock of a phone, `phoneRateLimit` of src/middleware/rateLimiter.js.
use oncall_backend_private.Prelude.{
  ℕ, suc, ◌+◌, ◌≤◌, ◌<◌, ◌≡◌, refl, min, false, Option, none, some, List, [], ◌∷◌, ltb, arith,
  if◌then◌else◌, All, Bool-cases, inl, inr,
}
use oncall_backend_private.Limits.{PhoneRecord, phone_rate_limit, sweep_phone}

-- How many of a phone's attempts, in the order of time, are let through.
pub let_through : ℕ → ℕ → Option PhoneRecord → List ℕ → ℕ
let_through max_attempts lock entry [] = 0
let_through max_attempts lock entry (now ∷ later) =
    let (after, allowed) = phone_rate_limit max_attempts lock entry now in
    (if allowed then 1 else 0) + let_through max_attempts lock after later

let_through-le :
    (max_attempts lock : ℕ) (r : PhoneRecord) (ts : List ℕ)
    → All (λ t. t ≤ r.first_at + lock) ts
    → let_through max_attempts lock (some r) ts + min r.count max_attempts ≤ max_attempts
unfolding let_through phone_rate_limit
let_through-le max_attempts lock r [] h = omega arith
let_through-le max_attempts lock r (now ∷ later) h = elim (Bool-cases (ltb now r.locked_until)) [
  | inl locked ↦ ground (arith, locked, let_through-le max_attempts lock r later h.1)
  | inr unlocked ↦ ground (
    arith,
    unlocked,
    h.0,
    let_through-le max_attempts lock (record r { count = suc r.count }) later h.1,
    let_through-le max_attempts lock (record r { count = suc r.count; locked_until = now + lock })
        later h.1,
  )
]

-- Of the attempts of a phone that had no entry, those of the first lock period let through are no more
-- than the limit.
pub attempts_bounded :
    (max_attempts lock first : ℕ) (ts : List ℕ)
    → All (λ t. t ≤ first + lock) ts
    → let_through max_attempts lock none (first ∷ ts) ≤ max_attempts
unfolding let_through phone_rate_limit
attempts_bounded max_attempts lock first ts h = ground (
  arith,
  let_through-le max_attempts lock (record { count = 1; first_at = first; locked_until = 0 }) ts h,
  let_through-le max_attempts lock
      (record { count = 1; first_at = first; locked_until = first + lock }) ts h,
)

-- From an attempt that locks a phone on, every attempt before the end of the lock is refused, and leaves
-- the lock as it was.
pub lock_holds :
    (max_attempts lock now later : ℕ) (r : PhoneRecord)
    → r.locked_until ≤ now
    → (phone_rate_limit max_attempts lock (some r) now).1 ≡ false
    → later < now + lock
    → let locked = (phone_rate_limit max_attempts lock (some r) now).0 in
      phone_rate_limit max_attempts lock locked later ≡ (locked, false)
unfolding phone_rate_limit
lock_holds max_attempts lock now later r u f h = ground (arith, u, f, h)

-- The sweep never changes whether an attempt is let through, with the lock of 5 minutes of the source.
pub sweep_phone_harmless :
    (max_attempts swept now : ℕ) (entry : Option PhoneRecord)
    → swept ≤ now
    → (phone_rate_limit max_attempts 300000 (sweep_phone swept entry) now).1
      ≡ (phone_rate_limit max_attempts 300000 entry now).1
unfolding phone_rate_limit sweep_phone
sweep_phone_harmless max_attempts swept now none h = refl
sweep_phone_harmless max_attempts swept now (some r) h = ground (arith, h)

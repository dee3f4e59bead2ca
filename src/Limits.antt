-- ===== src/Limits.antt =====
-- The rate limits of src/middleware/rateLimiter.js: the sliding window of requests per address and the
-- lock of a phone after too many attempts. The maps are functions from a key (a number) to its entry; the
-- copy of the locks in the database, which a restart reads back, is left out. Times are milliseconds.
pub mod Window
pub mod Lock
use oncall_backend_private.Prelude.{
  ℕ, zero, suc, ◌+◌, ◌-◌, Bool, true, false, ◌&&◌, not, Option, none, some, List, [], ◌∷◌, ◌++◌,
  ltb, leb, ◌==◌, if◌then◌else◌, keep, length,
}

-- `t > now - windowMs`.
abbrev pub is_recent : ℕ → ℕ → ℕ → Bool
is_recent window now t = ltb now (t + window)

abbrev pub set_requests : (ℕ → List ℕ) → ℕ → List ℕ → ℕ → List ℕ
set_requests map key times k = if key == k then times else map k

-- The request at a time, recorded even when it is refused.
unfoldable pub record_request : ℕ → ℕ → List ℕ → List ℕ
record_request window now times = keep (is_recent window now) times ++ now ∷ []

-- The middleware that `rateLimit(maxRequests, windowMs)` returns: the map, and whether `next()` runs.
unfoldable pub rate_limit : ℕ → ℕ → (ℕ → List ℕ) → ℕ → ℕ → (ℕ → List ℕ) × Bool
rate_limit max_requests window map key now =
    let requests = record_request window now (map key) in
    (set_requests map key requests, leb (length requests) max_requests)

pub record PhoneRecord : Type 0 where
  pub count : ℕ
  pub first_at : ℕ
  pub locked_until : ℕ

abbrev pub record_or_new : Option PhoneRecord → ℕ → PhoneRecord
record_or_new none now = record { count = 0; first_at = now; locked_until = 0 }
record_or_new (some r) now = r

abbrev pub restarted : ℕ → ℕ → PhoneRecord → PhoneRecord
restarted lock now r =
    if ltb lock (now - r.first_at) then record r { count = 0; first_at = now } else r

abbrev pub count_attempt : ℕ → ℕ → ℕ → PhoneRecord → PhoneRecord × Bool
count_attempt max_attempts lock now r =
    let counted = record r { count = suc r.count } in
    if ltb max_attempts counted.count
    then (record counted { locked_until = now + lock }, false)
    else (counted, true)

-- The middleware that `phoneRateLimit(maxAttempts, lockMs)` returns, on the entry of one phone.
unfoldable pub phone_rate_limit : ℕ → ℕ → Option PhoneRecord → ℕ → Option PhoneRecord × Bool
phone_rate_limit max_attempts lock entry now =
    let r = record_or_new entry now in
    if ltb now r.locked_until
    then (entry, false)
    else (let (after, allowed) = count_attempt max_attempts lock now (restarted lock now r) in
        (some after, allowed))

-- The sweep of every minute, for one address and for one phone; an empty list is a missing entry.
unfoldable pub sweep_requests : ℕ → List ℕ → List ℕ
sweep_requests now times = keep (is_recent 300000 now) times

unfoldable pub sweep_phone : ℕ → Option PhoneRecord → Option PhoneRecord
sweep_phone now none = none
sweep_phone now (some r) =
    if ltb r.locked_until now && ltb 300000 (now - r.first_at) then none else some r

-- ===== src/Rates.antt =====
-- The algorithms of src/domain/ratelimit/algorithms.js. Tokens and levels are counted in parts of which the
-- window has as many as milliseconds, so that the rate (`limit / window` for each millisecond) is a whole
-- number of parts, where the source has fractions.
pub mod Bounds
use oncall_backend_private.Prelude.{
  ℕ, zero, suc, ◌+◌, ◌-◌, ◌*◌, ◌/◌, ◌%◌, min, Bool, true, false, Option, none, some, List, [], ◌∷◌,
  ◌++◌, ltb, leb, ◌==◌, if◌then◌else◌, keep,
}

-- What the algorithms read of a policy; `createPolicy` refuses a window or a limit of 0.
pub record RatePolicy : Type 0 where
  pub limit : ℕ
  pub window : ℕ
  pub burst_limit : Option ℕ

-- `capacity`.
abbrev pub capacity_of : Option ℕ → ℕ → ℕ
capacity_of none limit = limit
capacity_of (some b) limit = b

abbrev pub capacity : RatePolicy → ℕ
capacity p = capacity_of p.burst_limit p.limit

-- `Math.ceil` of a quotient.
abbrev ceil_div : ℕ → ℕ → ℕ
ceil_div a b = (a + (b - 1)) / b

-- What an algorithm answers, with the states to store if the request is counted and if it is not.
pub record Admission (S : Type 0) : Type 0 where
  pub allowed : Bool
  pub usage : ℕ
  pub remaining : ℕ
  pub reset_time : ℕ
  pub state_if_consumed : S
  pub state_decayed : S

-- The state that `consume` of the service stores.
abbrev pub stored : {S : Type 0} → Admission S → S
stored a = if a.allowed then a.state_if_consumed else a.state_decayed

-- `fixedWindow`: the state is the start of a window and the count in it.
abbrev pub count_in : Option (ℕ × ℕ) → ℕ → ℕ
count_in none start = 0
count_in (some (s, count)) start = if s == start then count else 0

unfoldable pub fixed_window : RatePolicy → Option (ℕ × ℕ) → ℕ → ℕ → Admission (ℕ × ℕ)
fixed_window p state now cost =
    let start = now / p.window * p.window in
    let count = count_in state start in
    let allowed = leb (count + cost) (capacity p) in
    record {
      allowed = allowed;
      usage = count;
      remaining = capacity p - (if allowed then count + cost else count);
      reset_time = start + p.window;
      state_if_consumed = (start, count + cost);
      state_decayed = (start, count);
    }

-- `slidingWindow`: the state is the list of the counted requests.
pub record Counted : Type 0 where
  pub at_time : ℕ
  pub cost : ℕ

unfoldable pub total_cost : List Counted → ℕ
total_cost [] = 0
total_cost (e ∷ es) = e.cost + total_cost es

abbrev first_or : List Counted → ℕ → ℕ
first_or [] now = now
first_or (e ∷ es) now = e.at_time

abbrev listed : Option (List Counted) → List Counted
listed none = []
listed (some es) = es

unfoldable pub sliding_window :
    RatePolicy → Option (List Counted) → ℕ → ℕ → Admission (List Counted)
sliding_window p state now cost =
    let entries = keep (λ (e : Counted). ltb now (e.at_time + p.window)) (listed state) in
    let usage = total_cost entries in
    let allowed = leb (usage + cost) (capacity p) in
    record {
      allowed = allowed;
      usage = usage;
      remaining = capacity p - (if allowed then usage + cost else usage);
      reset_time = first_or entries now + p.window;
      state_if_consumed = entries ++ record { at_time = now; cost = cost } ∷ [];
      state_decayed = entries;
    }

-- `tokenBucket`: the state is the parts of tokens that are left and the time of the last refill.
abbrev full_or : RatePolicy → Option (ℕ × ℕ) → ℕ → ℕ × ℕ
full_or p none now = (capacity p * p.window, now)
full_or p (some s) now = s

unfoldable pub token_bucket : RatePolicy → Option (ℕ × ℕ) → ℕ → ℕ → Admission (ℕ × ℕ)
token_bucket p state now cost =
    let cap = capacity p * p.window in
    let (left, last) = full_or p state now in
    let tokens = min cap (left + (now - last) * p.limit) in
    let allowed = leb (cost * p.window) tokens in
    let after = if allowed then tokens - cost * p.window else tokens in
    record {
      allowed = allowed;
      usage = cap - tokens;
      remaining = after / p.window;
      reset_time = now + ceil_div (cap - after) p.limit;
      state_if_consumed = (after, now);
      state_decayed = (tokens, now);
    }

-- `leakyBucket`: the state is the parts of the level and the time of the last leak.
abbrev empty_or : Option (ℕ × ℕ) → ℕ → ℕ × ℕ
empty_or none now = (0, now)
empty_or (some s) now = s

unfoldable pub leaky_bucket : RatePolicy → Option (ℕ × ℕ) → ℕ → ℕ → Admission (ℕ × ℕ)
leaky_bucket p state now cost =
    let cap = capacity p * p.window in
    let (held, last) = empty_or state now in
    let level = held - (now - last) * p.limit in
    let allowed = leb (level + cost * p.window) cap in
    let after = if allowed then level + cost * p.window else level in
    record {
      allowed = allowed;
      usage = level;
      remaining = (cap - after) / p.window;
      reset_time = now + ceil_div after p.limit;
      state_if_consumed = (after, now);
      state_decayed = (level, now);
    }

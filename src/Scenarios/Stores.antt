-- ===== src/Scenarios/Stores.antt =====
-- Scenarios of the cache, the rate limits and the transactions.
use oncall_backend_private.Prelude.{
  arith, ℕ, ◌+◌, ◌-◌, ◌*◌, ◌≤◌, ◌≡◌, refl, true, none, some, List, [], ◌∷◌,
}
use oncall_backend_private.Cache.{get_cache}
use oncall_backend_private.Cache.Refinement.{
  Use, sets, gets, clears, sweeps, serve_all, live, replay as replay_cache, cache_refines,
}
use oncall_backend_private.Rates.{RatePolicy, token_bucket, leaky_bucket}
use oncall_backend_private.Rates.Bounds.{admitted, duration, bucket_bounds}
use oncall_backend_private.Transactions.{
  Connection, Transaction, begun, busy, run_transaction, run_queue,
}
use oncall_backend_private.Transactions.Atomicity.{
  disk_after, replay, transaction_atomic, queue_serial,
}

abbrev day : List (ℕ × Use ℕ)
day =
    (10, sets "scooters_all" 7 100) ∷ (20, gets "stats") ∷ (30, clears "taxis") ∷ (40, sweeps) ∷ []

cache_refines_example :
    (get_cache (serve_all [] 0 day) "scooters_all" 110).1
    ≡ live 110 (replay_cache (λ k. none) 0 day "scooters_all")
unfolding oncall_backend_private.Cache.Refinement.end_of
cache_refines_example = cache_refines 0 110 day "scooters_all" (omega arith)

abbrev ten_a_second : RatePolicy
ten_a_second = record { limit = 10; window = 1000; burst_limit = some 15 }

abbrev burst : List (ℕ × ℕ)
burst = (0, 9) ∷ (100, 9) ∷ (300, 2) ∷ []

bucket_bounds_example :
    (admitted (token_bucket ten_a_second) (some (15000, 2000)) 2000 burst * 1000
      ≤ 15000 + duration burst * 10)
    × (admitted (leaky_bucket ten_a_second) (some (4000, 2000)) 2000 burst * 1000
        ≤ (15 * 1000 - 4000) + duration burst * 10)
bucket_bounds_example = bucket_bounds ten_a_second 15000 4000 2000 burst

-- A transaction that adds to a number, one that throws after it has, and one for which SQLite is busy.
abbrev adding : ℕ → Transaction ℕ ℕ
adding n = record {
  body = λ d. (d + n, some d);
  begins = busy ∷ begun ∷ [];
  commits = true;
  rolls_back = true;
}

abbrev throwing : Transaction ℕ ℕ
throwing = record (adding 50) { body = λ d. (d + 50, none) }

abbrev idle : Connection ℕ
idle = record { committed = 100; working = none }

transaction_atomic_example :
    let o = run_transaction idle throwing in
    (o.connection.committed ≡ disk_after 100 throwing o.result) × (o.runs ≤ 1) × (o.slept ≤ 650)
transaction_atomic_example = transaction_atomic idle throwing

queue_serial_example :
    let r = run_queue idle (adding 1 ∷ throwing ∷ adding 2 ∷ []) in
    (r.0.working ≡ none) × (r.0.committed ≡ replay 100 (adding 1 ∷ throwing ∷ adding 2 ∷ []) r.1)
queue_serial_example =
    queue_serial idle (adding 1 ∷ throwing ∷ adding 2 ∷ []) refl (refl, (refl, (refl, tt)))

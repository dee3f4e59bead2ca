-- ===== src/Limits/Window.antt =====
-- The sliding window of `rateLimit` in src/middleware/rateLimiter.js against the count that it stands for.
use oncall_backend_private.Prelude.{
  ℕ, suc, ◌+◌, ◌≤◌, ◌≡◌, refl, sym, ap, ◌∙◌, Bool, false, List, [], ◌∷◌, ◌++◌, leb, ◌==◌, arith,
  keep, length, length-append, All,
}
use oncall_backend_private.Limits.{
  is_recent, set_requests, record_request, rate_limit, sweep_requests,
}

-- The map after the requests of one address, the latest first.
pub after_requests : ℕ → ℕ → (ℕ → List ℕ) → ℕ → List ℕ → ℕ → List ℕ
after_requests max_requests window map key [] = map
after_requests max_requests window map key (now ∷ earlier) =
    (rate_limit max_requests window (after_requests max_requests window map key earlier) key now).0

-- Each time is no earlier than those after it in the list.
abbrev pub IsLatestFirst : List ℕ → Type 0
IsLatestFirst [] = Unit
IsLatestFirst (t ∷ ts) = All (λ u. u ≤ t) ts × IsLatestFirst ts

length-keep-keep :
    (window now later : ℕ) (xs : List ℕ)
    → now ≤ later
    → length (keep (is_recent window later) (keep (is_recent window now) xs))
      ≡ length (keep (is_recent window later) xs)
unfolding keep
length-keep-keep window now later [] h = refl
length-keep-keep window now later (x ∷ xs) h =
    ground (arith, length-keep-keep window now later xs h)

length-keep-append :
    (p : ℕ → Bool) (xs : List ℕ) (y : ℕ) → length (keep p (xs ++ y ∷ [])) ≡ length (keep p (y ∷ xs))
unfolding keep
length-keep-append p [] y = refl
length-keep-append p (x ∷ xs) y = ground (arith, length-keep-append p xs y)

set_requests-same :
    (map : ℕ → List ℕ) (key : ℕ) (times : List ℕ) → set_requests map key times key ≡ times
set_requests-same map key times = ground arith

-- What the map keeps is enough to count the requests of any later window.
window_kept :
    (max_requests window : ℕ) (map : ℕ → List ℕ) (key later : ℕ) (ts : List ℕ)
    → map key ≡ []
    → IsLatestFirst (later ∷ ts)
    → length (keep (is_recent window later) (after_requests max_requests window map key ts key))
      ≡ length (keep (is_recent window later) ts)
unfolding after_requests rate_limit record_request keep
window_kept max_requests window map key later [] e h =
    ap (λ xs. length (keep (is_recent window later) xs)) e
window_kept max_requests window map key later (t ∷ ts) e h =
    ap (λ xs. length (keep (is_recent window later) xs))
      (set_requests-same (after_requests max_requests window map key ts) key _)
    ∙ length-keep-append (is_recent window later)
        (keep (is_recent window t) (after_requests max_requests window map key ts key)) t
    ∙ ground (
      arith,
      length-keep-keep window t later (after_requests max_requests window map key ts key) h.0.0,
      window_kept max_requests window map key later ts e (h.0.1, h.1.1),
    )

-- For an address with no entry at first, a request that follows any history of its requests in the
-- order of time is allowed exactly when its requests in the window that ends with it, refused ones
-- and itself included, are no more than the limit.
pub rate_limit_iff :
    (max_requests window : ℕ) (map : ℕ → List ℕ) (key now : ℕ) (ts : List ℕ)
    → map key ≡ []
    → IsLatestFirst (now ∷ ts)
    → (rate_limit max_requests window (after_requests max_requests window map key ts) key now).1
      ≡ leb (suc (length (keep (is_recent window now) ts))) max_requests
unfolding rate_limit record_request
rate_limit_iff max_requests window map key now ts e h =
    ap (λ n. leb n max_requests)
      (length-append
          (keep (is_recent window now) (after_requests max_requests window map key ts key))
          (now ∷ [])
        ∙ omega (arith, window_kept max_requests window map key now ts e h))

-- The requests of one address do not touch those of another.
pub rate_limit-other :
    (max_requests window : ℕ) (map : ℕ → List ℕ) (key other : ℕ) (ts : List ℕ)
    → (key == other) ≡ false
    → after_requests max_requests window map key ts other ≡ map other
unfolding after_requests rate_limit
rate_limit-other max_requests window map key other [] e = refl
rate_limit-other max_requests window map key other (t ∷ ts) e =
    ground (arith, e, rate_limit-other max_requests window map key other ts e)

length-keep-swept :
    (window swept now : ℕ) (xs : List ℕ)
    → window ≤ 300000
    → swept ≤ now
    → length (keep (is_recent window now) (keep (is_recent 300000 swept) xs))
      ≡ length (keep (is_recent window now) xs)
unfolding keep
length-keep-swept window swept now [] h k = refl
length-keep-swept window swept now (x ∷ xs) h k =
    ground (arith, length-keep-swept window swept now xs h k)

-- The sweep never changes what a limit with a window of at most 5 minutes decides.
pub sweep_harmless :
    (max_requests window : ℕ) (map : ℕ → List ℕ) (key swept now : ℕ)
    → window ≤ 300000
    → swept ≤ now
    → (rate_limit max_requests window
        (set_requests map key (sweep_requests swept (map key)))
        key
        now).1
      ≡ (rate_limit max_requests window map key now).1
unfolding rate_limit record_request sweep_requests
sweep_harmless max_requests window map key swept now h k =
    ap (λ xs. leb (length (record_request window now xs)) max_requests)
      (set_requests-same map key _)
    ∙ ap (λ n. leb n max_requests)
        (length-append (keep (is_recent window now) (keep (is_recent 300000 swept) (map key)))
            (now ∷ [])
          ∙ ap (λ n. n + 1) (length-keep-swept window swept now (map key) h k)
          ∙ sym (length-append (keep (is_recent window now) (map key)) (now ∷ [])))

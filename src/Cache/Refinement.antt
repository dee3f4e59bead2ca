-- ===== src/Cache/Refinement.antt =====
-- The cache of src/services/cache.js against a function from keys to data with an end, from which nothing is
-- ever removed for its age.
use Prim.Native.String.{String}
use oncall_backend_private.Prelude.{
  ℕ, ◌+◌, ◌≤◌, ◌≡◌, refl, sym, ap, ◌∙◌, subst, true, false, ◌&&◌, Option, none, some, List, [], ◌∷◌,
  ltb, if◌then◌else◌, arith, string_key, lookup, insert, erase, lookup-insert, lookup-insert_other,
  lookup-erase, lookup-erase_other, same_refl, Bool-cases, inl, inr, Option-cases, any,
}
use oncall_backend_private.Cache.{
  get_cache, set_cache, has_part, clear_keys, clear_cache, sweep_keys, sweep, keys_of,
}

-- A call: a value is put, read or the keys with a pattern are cleared, or the sweep runs.
pub data Use (D : Type 0) : Type 0 where
  sets : String → D → ℕ → Use D
  gets clears : String → Use D
  sweeps : Use D

module _ {D : Type 0} where
  -- The item, while it lives.
  abbrev pub live : ℕ → Option (D × ℕ) → Option D
  live now none = none
  live now (some item) = if ltb item.1 now then none else some item.0

  pub serve : List (String × (D × ℕ)) → Use D → ℕ → List (String × (D × ℕ))
  serve cache (sets key d ttl) now = set_cache cache key d ttl now
  serve cache (gets key) now = (get_cache cache key now).0
  serve cache (clears pattern) now = clear_cache cache pattern
  serve cache sweeps now = sweep cache now

  -- The calls, each some time after the one before.
  pub serve_all : List (String × (D × ℕ)) → ℕ → List (ℕ × Use D) → List (String × (D × ℕ))
  serve_all cache now [] = cache
  serve_all cache now ((wait, u) ∷ us) = serve_all (serve cache u (now + wait)) (now + wait) us

  unfoldable pub end_of : ℕ → List (ℕ × Use D) → ℕ
  end_of now [] = now
  end_of now ((wait, u) ∷ us) = end_of (now + wait) us

  -- The same calls on a function.
  pub meaning : (String → Option (D × ℕ)) → Use D → ℕ → String → Option (D × ℕ)
  meaning f (sets key d ttl) now k = if string_key.same k key then some (d, now + ttl) else f k
  meaning f (gets key) now k = f k
  meaning f (clears pattern) now k = if has_part k pattern then none else f k
  meaning f sweeps now k = f k

  pub replay : (String → Option (D × ℕ)) → ℕ → List (ℕ × Use D) → String → Option (D × ℕ)
  replay f now [] = f
  replay f now ((wait, u) ∷ us) = replay (meaning f u (now + wait)) (now + wait) us

  erase_expired :
      (cache : List (String × (D × ℕ))) (key k : String) (now later : ℕ) (item : D × ℕ)
      → lookup key cache ≡ some item
      → ltb item.1 now ≡ true
      → now ≤ later
      → live later (lookup k (erase key cache)) ≡ live later (lookup k cache)
  erase_expired cache key k now later item h e l = elim (Bool-cases (string_key.same k key)) [
    | inl s ↦
        subst (λ x. live later (lookup x (erase key cache)) ≡ live later (lookup x cache))
          (sym ((string_key.same_iff k key).0 s)) (ground (arith, h, e, l, lookup-erase key cache))
    | inr s ↦ ap (live later) (lookup-erase_other key k cache s)
  ]

  sweep-live :
      (keys : List String) (cache : List (String × (D × ℕ))) (k : String) (now later : ℕ)
      → now ≤ later
      → live later (lookup k (sweep_keys keys now cache)) ≡ live later (lookup k cache)
  unfolding sweep_keys
  sweep-live [] cache k now later l = refl
  sweep-live (key ∷ keys) cache k now later l = elim (Option-cases (lookup key cache)) [
    | inl h ↦ ground (arith, h, sweep-live keys cache k now later l)
    | inr (item, h) ↦ elim (Bool-cases (ltb item.1 now)) [
      | inl e ↦ ground (
        arith,
        h,
        e,
        sweep-live keys (erase key cache) k now later l,
        erase_expired cache key k now later item h e l,
      )
      | inr e ↦ ground (arith, h, e, sweep-live keys cache k now later l)
    ]
  ]

  get-live :
      (cache : List (String × (D × ℕ))) (key k : String) (now later : ℕ)
      → now ≤ later
      → live later (lookup k (get_cache cache key now).0) ≡ live later (lookup k cache)
  unfolding get_cache
  get-live cache key k now later l = elim (Option-cases (lookup key cache)) [
    | inl h ↦ ground (arith, h)
    | inr (item, h) ↦ elim (Bool-cases (ltb item.1 now)) [
      | inl e ↦ ground (arith, h, e, erase_expired cache key k now later item h e l)
      | inr e ↦ ground (arith, h, e)
    ]
  ]

  clear-lookup :
      (pattern : String) (keys : List String) (cache : List (String × (D × ℕ))) (k : String)
      → lookup k (clear_keys pattern keys cache)
        ≡ (if has_part k pattern && any (string_key.same k) keys then none else lookup k cache)
  unfolding clear_keys
  clear-lookup pattern [] cache k = ground arith
  clear-lookup pattern (key ∷ keys) cache k = elim (Bool-cases (string_key.same k key)) [
    | inl s ↦
        let here =
          subst
            (λ x.
              lookup k (if has_part x pattern then erase x cache else cache)
              ≡ (if has_part k pattern then none else lookup k cache))
            ((string_key.same_iff k key).0 s) (ground (arith, lookup-erase k cache)) in
        ground (
          arith,
          s,
          here,
          clear-lookup pattern keys (if has_part key pattern then erase key cache else cache) k,
        )
    | inr s ↦ ground (
      arith,
      s,
      lookup-erase_other key k cache s,
      clear-lookup pattern keys (if has_part key pattern then erase key cache else cache) k,
    )
  ]

  lookup-absent :
      (cache : List (String × (D × ℕ))) (k : String)
      → any (string_key.same k) (keys_of cache) ≡ false
      → lookup k cache ≡ none
  unfolding lookup
  lookup-absent [] k h = refl
  lookup-absent (entry ∷ cache) k h = ground (arith, h, lookup-absent cache k)

  clear-live :
      (cache : List (String × (D × ℕ))) (pattern k : String)
      → lookup k (clear_cache cache pattern) ≡ (if has_part k pattern then none else lookup k cache)
  unfolding clear_cache
  clear-live cache pattern k =
      ground (arith, clear-lookup pattern (keys_of cache) cache k, lookup-absent cache k)

  -- The cache reads like the function from a time on.
  abbrev ReadsLike : ℕ → List (String × (D × ℕ)) → (String → Option (D × ℕ)) → Type 0
  ReadsLike now cache f =
      (k : String) (later : ℕ) → now ≤ later → live later (lookup k cache) ≡ live later (f k)

  serve-ReadsLike :
      (cache : List (String × (D × ℕ))) (f : String → Option (D × ℕ)) (u : Use D) (now : ℕ)
      → ReadsLike now cache f
      → ReadsLike now (serve cache u now) (meaning f u now)
  unfolding serve meaning set_cache sweep
  serve-ReadsLike cache f (sets key d ttl) now h k later l =
      elim (Bool-cases (string_key.same k key)) [
        | inl s ↦
            subst
              (λ x.
                live later (lookup x (insert key (d, now + ttl) cache))
                ≡ live later (if string_key.same x key then some (d, now + ttl) else f x))
              (sym ((string_key.same_iff k key).0 s))
              (ground (arith, lookup-insert key (d, now + ttl) cache, same_refl key))
        | inr s ↦ ground (arith, s, lookup-insert_other key k (d, now + ttl) cache s, h k later l)
      ]
  serve-ReadsLike cache f (gets key) now h k later l =
      get-live cache key k now later l ∙ h k later l
  serve-ReadsLike cache f (clears pattern) now h k later l =
      ground (arith, clear-live cache pattern k, h k later l)
  serve-ReadsLike cache f sweeps now h k later l =
      sweep-live (keys_of cache) cache k now later l ∙ h k later l

  all-ReadsLike :
      (cache : List (String × (D × ℕ))) (f : String → Option (D × ℕ)) (now : ℕ)
      (us : List (ℕ × Use D))
      → ReadsLike now cache f
      → ReadsLike (end_of now us) (serve_all cache now us) (replay f now us)
  unfolding serve_all end_of replay
  all-ReadsLike cache f now [] h = h
  all-ReadsLike cache f now ((wait, u) ∷ us) h =
      all-ReadsLike (serve cache u (now + wait)) (meaning f u (now + wait)) (now + wait) us
        (serve-ReadsLike cache f u (now + wait) (λ k later l. h k later (omega (arith, l))))

  -- Whatever is put, read, cleared and swept, a reading of the cache at any time after that gives what the
  -- same calls leave in a function from keys to data, from which only a pattern removes: the value that was
  -- put last and not cleared since, as long as its time has not passed, and nothing otherwise.
  pub cache_refines :
      (start later : ℕ) (us : List (ℕ × Use D)) (key : String)
      → end_of start us ≤ later
      → (get_cache (serve_all [] start us) key later).1
        ≡ live later (replay (λ k. none) start us key)
  unfolding get_cache lookup
  cache_refines start later us key l =
      ground (arith, all-ReadsLike [] (λ k. none) start us (λ k t h. refl) key later l)

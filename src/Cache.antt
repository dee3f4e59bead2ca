-- ===== src/Cache.antt =====
-- The cache of src/services/cache.js: keys with data and the time at which they expire.
pub mod Refinement
use Prim.Native.String.{String}
use text.Mathlib.Text.{find?}
use oncall_backend_private.Prelude.{
  ℕ, ◌+◌, Bool, true, false, Option, none, some, List, [], ◌∷◌, ltb, if◌then◌else◌, string_key,
  lookup, insert, erase, map,
}

-- `key.includes(pattern)`.
abbrev pub has_part : String → String → Bool
has_part key pattern = elim (find? key pattern) [ none ↦ false | some i ↦ true ]

module _ {D : Type 0} where
  -- `getCache` at a time: the data, and the cache without the key if it has expired.
  unfoldable pub get_cache :
      List (String × (D × ℕ)) → String → ℕ → List (String × (D × ℕ)) × Option D
  get_cache cache key now = elim (lookup key cache) [
    | none ↦ (cache, none)
    | some item ↦ if ltb item.1 now then (erase key cache, none) else (cache, some item.0)
  ]

  -- `setCache`.
  unfoldable pub set_cache : List (String × (D × ℕ)) → String → D → ℕ → ℕ → List (String × (D × ℕ))
  set_cache cache key d ttl now = insert key (d, now + ttl) cache

  abbrev pub keys_of : List (String × (D × ℕ)) → List String
  keys_of cache = map (λ entry. entry.0) cache

  -- The loop of `clearCache`.
  unfoldable pub clear_keys :
      String → List String → List (String × (D × ℕ)) → List (String × (D × ℕ))
  clear_keys pattern [] cache = cache
  clear_keys pattern (key ∷ keys) cache =
      clear_keys pattern keys (if has_part key pattern then erase key cache else cache)

  unfoldable pub clear_cache : List (String × (D × ℕ)) → String → List (String × (D × ℕ))
  clear_cache cache pattern = clear_keys pattern (keys_of cache) cache

  abbrev pub is_expired : Option (D × ℕ) → ℕ → Bool
  is_expired none now = false
  is_expired (some item) now = ltb item.1 now

  -- The loop of the sweep that runs every 30 seconds.
  unfoldable pub sweep_keys : List String → ℕ → List (String × (D × ℕ)) → List (String × (D × ℕ))
  sweep_keys [] now cache = cache
  sweep_keys (key ∷ keys) now cache =
      sweep_keys keys now (if is_expired (lookup key cache) now then erase key cache else cache)

  unfoldable pub sweep : List (String × (D × ℕ)) → ℕ → List (String × (D × ℕ))
  sweep cache now = sweep_keys (keys_of cache) now cache

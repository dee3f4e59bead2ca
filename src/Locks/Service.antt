-- ===== src/Locks/Service.antt =====
-- The lock service of src/application/lock/lockService.js over a store of locks (providerPort.js), and the
-- store in memory (providers/memoryProvider.js). The service runs its mutations one after the other
-- (`_withLock`), so a call is a function of the store and of the clock's reading; the metrics and the
-- events, which no call reads, are left out.
use Prim.Native.String.{String}
use mathlib.Core.Option
use oncall_backend_private.Prelude.{
  ℕ, ◌+◌, ◌≡◌, Bool, true, false, ◌&&◌, ◌||◌, not, Option, none, some, List, [], ◌∷◌, ltb, ◌==◌,
  arith, if◌then◌else◌, string_key, lookup, insert, lookup-insert, lookup-insert_other,
}
use oncall_backend_private.Locks.{
  Lock, LockState, available, released, expired, create_lock, is_name, lease_or, is_live,
  settle_expiry, acquire, renew, release,
}

-- What the service needs of a store: a lock is read back as it was written, and writing one lock changes no other.
pub record LockProvider (S : Type 0) : Type 0 where
  pub read : S → String → String → Option Lock
  pub write : S → String → String → Lock → S
  pub read-write : (s : S) (n i : String) (l : Lock) → read (write s n i l) n i ≡ some l
  pub read-write_other_id :
      (s : S) (n i j : String) (l : Lock)
      → string_key.same j i ≡ false
      → read (write s n i l) n j ≡ read s n j
  pub read-write_other_namespace :
      (s : S) (n m i j : String) (l : Lock)
      → string_key.same m n ≡ false
      → read (write s n i l) m j ≡ read s m j

abbrev pub Buckets : Type 0
Buckets = List (String × List (String × Lock))

-- `ns.get(namespace)`, and the empty map where there is none.
unfoldable pub bucket : Buckets → String → List (String × Lock)
bucket ns namespace = elim (lookup namespace ns) [ none ↦ [] | some b ↦ b ]

-- `read`, `write` of the store in memory.
unfoldable pub memory_read : Buckets → String → String → Option Lock
memory_read ns namespace lock_id = lookup lock_id (bucket ns namespace)

unfoldable pub memory_write : Buckets → String → String → Lock → Buckets
memory_write ns namespace lock_id l = insert namespace (insert lock_id l (bucket ns namespace)) ns

pub memory-read-write :
    (s : Buckets) (n i : String) (l : Lock) → memory_read (memory_write s n i l) n i ≡ some l
unfolding memory_read memory_write bucket
memory-read-write s n i l =
    ground (arith, lookup-insert n (insert i l (bucket s n)) s, lookup-insert i l (bucket s n))

pub memory-other_id :
    (s : Buckets) (n i j : String) (l : Lock)
    → string_key.same j i ≡ false
    → memory_read (memory_write s n i l) n j ≡ memory_read s n j
unfolding memory_read memory_write bucket
memory-other_id s n i j l h =
    ground
      (arith, lookup-insert n (insert i l (bucket s n)) s, lookup-insert_other i j l (bucket s n) h)

pub memory-other_namespace :
    (s : Buckets) (n m i j : String) (l : Lock)
    → string_key.same m n ≡ false
    → memory_read (memory_write s n i l) m j ≡ memory_read s m j
unfolding memory_read memory_write bucket
memory-other_namespace s n m i j l h =
    ground (arith, lookup-insert_other n m (insert i l (bucket s n)) s h)

instance abbrev pub memory_provider : LockProvider Buckets
memory_provider = record {
  read = memory_read;
  write = memory_write;
  read-write = memory-read-write;
  read-write_other_id = memory-other_id;
  read-write_other_namespace = memory-other_namespace;
}

pub record Spec : Type 0 where
  pub namespace : String
  pub lock_id : String
  pub owner_id : Option ℕ
  pub lease_ms : Option ℕ
  pub wait_ms : Option ℕ
  pub metadata : List (String × String)

-- What the calls throw.
pub data LockError : Type 0 where
  incomplete conflict not_owner : LockError

pub data Reply {ℓ} (A : Type ℓ) : Type ℓ where
  done : A → Reply A
  thrown : LockError → Reply A

-- `_hydrate`.
unfoldable pub hydrate : Lock → Option Lock
hydrate model = elim (create_lock model.lock_id model.namespace (some model.lease_ms) []) [
  | none ↦ none
  | some l ↦ some (record l {
    owner_id = model.owner_id;
    acquired_at = model.acquired_at;
    expires_at = model.expires_at;
    renewed_at = model.renewed_at;
    metadata = model.metadata;
    version = model.version;
    state = model.state;
  })
]

-- The end of `_load`: a lapsed lease is written back as expired.
unfoldable pub settled : {S : Type 0} ⦃p : LockProvider S⦄ → S → Spec → ℕ → Lock → S × Lock
settled ⦃p⦄ s spec now l =
    let (m, lapsed) = settle_expiry l now in
    (if lapsed then p.write s spec.namespace spec.lock_id m else s, m)

-- `l.ownerId === ownerId`.
abbrev pub is_owner : Option ℕ → Option ℕ → Bool
is_owner (some a) (some b) = a == b
is_owner none none = true
is_owner _ _ = false

abbrev pub is_free : LockState → Bool
is_free available = true
is_free released = true
is_free expired = true
is_free _ = false

-- The names that `_require` asks for.
abbrev pub is_named : Spec → Bool
is_named spec = is_name spec.namespace && is_name spec.lock_id

-- The owner that `_require` asks for, and the failure of `createLock` in `_load`: what a call does with both.
unfoldable pub on_loaded :
    {S A : Type 0} → S → Option ℕ → Option (S × Lock) → (ℕ → S × Lock → S × Reply A) → S × Reply A
on_loaded s (some owner) (some loaded) f = f owner loaded
on_loaded s _ _ f = (s, thrown incomplete)

module _ {S : Type 0} ⦃p : LockProvider S⦄ where
  -- The record that `_load` reads, or a new lock; none without the names.
  unfoldable pub found_lock : S → Spec → Option ℕ → Option Lock
  found_lock s spec lease_ms =
      let found : Option Lock = elim (p.read s spec.namespace spec.lock_id) [
        | some model ↦ hydrate model
        | none ↦ create_lock spec.lock_id spec.namespace lease_ms []
      ] in
      if is_named spec then found else none

  -- `_load`.
  unfoldable pub load : S → Spec → Option ℕ → ℕ → Option (S × Lock)
  load s spec lease_ms now = Option.map (settled s spec now) (found_lock s spec lease_ms)

  -- `_attempt` on the lock that was loaded: its new state, or none where another owner holds it.
  unfoldable pub attempt : S × Lock → Spec → ℕ → ℕ → S × Reply (Option Lock)
  attempt (s, l) spec owner now =
      let m = acquire l owner now spec.lease_ms spec.metadata in
      if is_live l now && not (is_owner (some owner) l.owner_id)
      then (s, done none)
      else (p.write s spec.namespace spec.lock_id m, done (some m))

  -- `tryAcquire`.
  unfoldable pub try_acquire : S → Spec → ℕ → S × Reply (Option Lock)
  try_acquire s spec now =
      on_loaded s spec.owner_id (load s spec spec.lease_ms now)
        (λ owner loaded. attempt loaded spec owner now)

  -- `renew` on the lock that was loaded.
  unfoldable pub renew_loaded : S × Lock → Spec → ℕ → S × Reply Lock
  renew_loaded (s, l) spec now =
      let m = renew l now spec.lease_ms in
      if not (is_live l now) || not (is_owner spec.owner_id l.owner_id)
      then (s, thrown not_owner)
      else (p.write s spec.namespace spec.lock_id m, done m)

  -- `renew`.
  unfoldable pub renew_lease : S → Spec → ℕ → S × Reply Lock
  renew_lease s spec now =
      on_loaded s spec.owner_id (load s spec spec.lease_ms now)
        (λ _ loaded. renew_loaded loaded spec now)

  -- `release` on the lock that was loaded.
  unfoldable pub release_loaded : S × Lock → Spec → S × Reply Bool
  release_loaded (s, l) spec =
      if is_free l.state
      then (s, done false)
      else if not (is_owner spec.owner_id l.owner_id)
      then (s, thrown not_owner)
      else (p.write s spec.namespace spec.lock_id (release l), done true)

  -- `release`.
  unfoldable pub release_lock : S → Spec → ℕ → S × Reply Bool
  release_lock s spec now =
      on_loaded s spec.owner_id (load s spec none now) (λ _ loaded. release_loaded loaded spec)

  -- `isHeld`, `owner`: a call with no other between its read and its write. The source does not queue them
  -- behind the mutations (`_withLock`), so that the expiry that they may write can fall between the steps
  -- of another call; such interleavings are not modelled.
  unfoldable pub held_by : S → Spec → ℕ → S × Reply (Option ℕ)
  held_by s spec now = elim (load s spec none now) [
    | none ↦ (s, thrown incomplete)
    | some (t, l) ↦ (t, done (if is_live l now then l.owner_id else none))
  ]

  -- The loop of `acquire`: after each wait, in which the calls of others change the store, one more
  -- attempt; none while the waits that are listed end before the deadline.
  unfoldable pub poll : S → Spec → ℕ → ℕ → List ((S → S) × ℕ) → S × Option (Reply Lock)
  poll s spec deadline now [] =
      let (t, r) = try_acquire s spec now in
      elim r [
        | thrown e ↦ (t, some (thrown e))
        | done (some m) ↦ (t, some (done m))
        | done none ↦ if ltb now deadline then (t, none) else (t, some (thrown conflict))
      ]
  poll s spec deadline now ((others, later) ∷ waits) =
      let (t, r) = try_acquire s spec now in
      let rest = poll (others t) spec deadline later waits in
      elim r [
        | thrown e ↦ (t, some (thrown e))
        | done (some m) ↦ (t, some (done m))
        | done none ↦ if ltb now deadline then rest else (t, some (thrown conflict))
      ]

  -- `acquire`; a wait that is missing or 0 gives the deadline at which the loop ends at once.
  unfoldable pub acquire_lock : S → Spec → ℕ → List ((S → S) × ℕ) → S × Option (Reply Lock)
  acquire_lock s spec now waits = poll s spec (now + lease_or spec.wait_ms 0) now waits

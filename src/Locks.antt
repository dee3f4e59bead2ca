-- ===== src/Locks.antt =====
-- The lease of src/domain/lock/lock.js. Times are milliseconds; the metadata of a lock, which no
-- transition reads, is a list of pairs with the latest first.
pub mod Lease
pub mod Service
pub mod Calls
pub mod Exclusion
pub mod Acquisition
use Prim.Native.String.{String}
use oncall_backend_private.Prelude.{
  ℕ, zero, suc, ◌+◌, Bool, true, false, ◌&&◌, not, Option, none, some, List, [], ◌++◌, ltb, leb,
  if◌then◌else◌,
}

pub data LockState : Type 0 where
  available acquired renewing released expired failed : LockState

pub record Lock : Type 0 where
  pub lock_id : String
  pub namespace : String
  pub owner_id : Option ℕ
  pub lease_ms : ℕ
  pub acquired_at : Option ℕ
  pub expires_at : Option ℕ
  pub renewed_at : Option ℕ
  pub metadata : List (String × String)
  pub version : ℕ
  pub state : LockState

-- `typeof leaseMs === 'number' && leaseMs > 0 ? leaseMs : fallback`.
abbrev pub lease_or : Option ℕ → ℕ → ℕ
lease_or none fallback = fallback
lease_or (some zero) fallback = fallback
lease_or (some (suc n)) fallback = suc n

abbrev pub is_name : String → Bool
is_name String.[] = false
is_name (String.◌∷◌ c s) = true

-- `createLock`: no lock without an id and a namespace (the source throws).
unfoldable pub create_lock : String → String → Option ℕ → List (String × String) → Option Lock
create_lock lock_id namespace lease_ms metadata =
    if is_name lock_id && is_name namespace
    then some (record {
      lock_id = lock_id;
      namespace = namespace;
      owner_id = none;
      lease_ms = lease_or lease_ms 30000;
      acquired_at = none;
      expires_at = none;
      renewed_at = none;
      metadata = metadata;
      version = 0;
      state = available;
    })
    else none

abbrev pub is_held : LockState → Bool
is_held acquired = true
is_held renewing = true
is_held _ = false

abbrev pub is_after : Option ℕ → ℕ → Bool
is_after none now = false
is_after (some t) now = ltb now t

abbrev pub is_past : Option ℕ → ℕ → Bool
is_past none now = false
is_past (some t) now = leb t now

-- `isLive`.
unfoldable pub is_live : Lock → ℕ → Bool
is_live l now = is_held l.state && is_after l.expires_at now

-- `settleExpiry`.
unfoldable pub settle_expiry : Lock → ℕ → Lock × Bool
settle_expiry l now =
    if is_held l.state && is_past l.expires_at now
    then (record l { state = expired }, true)
    else (l, false)

-- `acquire`.
unfoldable pub acquire : Lock → ℕ → ℕ → Option ℕ → List (String × String) → Lock
acquire l owner now lease_ms metadata =
    let lease = lease_or lease_ms l.lease_ms in
    record l {
      owner_id = some owner;
      lease_ms = lease;
      acquired_at = some now;
      renewed_at = some now;
      expires_at = some (now + lease);
      metadata = metadata ++ l.metadata;
      version = suc l.version;
      state = acquired;
    }

-- `renew`; the state renewing is set and overwritten within the call.
unfoldable pub renew : Lock → ℕ → Option ℕ → Lock
renew l now lease_ms =
    let lease = lease_or lease_ms l.lease_ms in
    record l {
      lease_ms = lease;
      renewed_at = some now;
      expires_at = some (now + lease);
      version = suc l.version;
      state = acquired;
    }

-- `release`, `fail`.
unfoldable pub release : Lock → Lock
release l = record l {
  state = released;
  owner_id = none;
  expires_at = none;
  version = suc l.version;
}

unfoldable pub fail : Lock → Lock
fail l = record l { state = failed; version = suc l.version }

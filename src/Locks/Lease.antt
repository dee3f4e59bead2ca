-- ===== src/Locks/Lease.antt =====
-- How long a lease of src/domain/lock/lock.js lives, and how its versions grow.
use Prim.Native.String.{String}
use oncall_backend_private.Prelude.{
  ℕ, ◌+◌, ◌≤◌, ◌≡◌, refl, false, Option, List, [], ◌∷◌, ltb, leb, arith,
}
use oncall_backend_private.Locks.{
  Lock, lease_or, is_live, settle_expiry, acquire, renew, release, fail,
}

-- What is done to a lock at a time.
pub data Operation : Type 0 where
  acquires : ℕ → Option ℕ → Operation
  renews : Option ℕ → Operation
  releases fails expires : Operation

-- The state of a lock after an operation at a time.
pub apply : Lock → Operation × ℕ → Lock
apply l (acquires owner lease_ms, now) = acquire l owner now lease_ms []
apply l (renews lease_ms, now) = renew l now lease_ms
apply l (releases, now) = release l
apply l (fails, now) = fail l
apply l (expires, now) = (settle_expiry l now).0

pub apply_all : Lock → List (Operation × ℕ) → Lock
apply_all l [] = l
apply_all l (o ∷ os) = apply_all (apply l o) os

-- A lease that is acquired or renewed lives for its time and no longer: it is live exactly before its end,
-- and is folded into the state expired exactly from then on.
pub lease_exact :
    (l : Lock) (owner now later : ℕ) (lease_ms : Option ℕ) (metadata : List (String × String))
    → let end_time = now + lease_or lease_ms l.lease_ms in
      (is_live (acquire l owner now lease_ms metadata) later ≡ ltb later end_time)
      × ((settle_expiry (acquire l owner now lease_ms metadata) later).1 ≡ leb end_time later)
      × (is_live (renew l now lease_ms) later ≡ ltb later end_time)
      × ((settle_expiry (renew l now lease_ms) later).1 ≡ leb end_time later)
unfolding is_live settle_expiry acquire renew
lease_exact l owner now later lease_ms metadata = (refl, ground arith, refl, ground arith)

-- Folding an expiry never changes whether a lock is live later; a lock that was released or has failed is
-- not live.
pub settle_harmless :
    (l : Lock) (now later : ℕ)
    → now ≤ later
    → (is_live (settle_expiry l now).0 later ≡ is_live l later)
      × (is_live (release l) later ≡ false)
      × (is_live (fail l) later ≡ false)
unfolding is_live settle_expiry release fail
settle_harmless l now later h = (ground (arith, h), refl, refl)

abbrev counts : Operation → ℕ
counts expires = 0
counts _ = 1

pub writes : List (Operation × ℕ) → ℕ
writes [] = 0
writes ((o, now) ∷ os) = counts o + writes os

settled-version : (l : Lock) (now : ℕ) → (settle_expiry l now).0.version ≡ l.version
unfolding settle_expiry
settled-version l now = ground arith

-- The version of a lock counts its acquisitions, renewals, releases and failures, and no folded expiry.
pub version_counts :
    (l : Lock) (os : List (Operation × ℕ)) → (apply_all l os).version ≡ l.version + writes os
unfolding apply_all apply acquire renew release fail settle_expiry writes
version_counts l [] = omega arith
version_counts l ((acquires owner lease_ms, now) ∷ os) =
    omega (arith, version_counts (acquire l owner now lease_ms []) os)
version_counts l ((renews lease_ms, now) ∷ os) =
    omega (arith, version_counts (renew l now lease_ms) os)
version_counts l ((releases, now) ∷ os) = omega (arith, version_counts (release l) os)
version_counts l ((fails, now) ∷ os) = omega (arith, version_counts (fail l) os)
version_counts l ((expires, now) ∷ os) =
    omega (arith, version_counts (settle_expiry l now).0 os, settled-version l now)

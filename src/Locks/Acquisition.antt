-- ===== src/Locks/Acquisition.antt =====
-- What an acquisition through src/application/lock/lockService.js gives, and that its wait ends.
use Prim.Native.String.{String}
use oncall_backend_private.Prelude.{
  ℕ, ◌+◌, ◌<◌, ◌≡◌, ◌≢◌, refl, sym, subst, true, false, ◌&&◌, Option, none, some, List, [], ◌∷◌,
  leb, arith, Option-cases, Bool-cases, inl, inr, any, All,
}
use oncall_backend_private.Locks.{Lock, lease_or, is_name, create_lock, settle_expiry, acquire}
use oncall_backend_private.Locks.Service.{
  LockProvider, Spec, done, thrown, hydrate, is_named, settled, load, attempt, try_acquire,
  found_lock, renew_lease, release_lock, held_by, not_owner, on_loaded, poll, acquire_lock,
  is_owner,
}
use oncall_backend_private.Locks.Exclusion.{IsHeldUntil, IsOther, held_lock_excludes}
use oncall_backend_private.Locks.Calls.{Call, serve_all}

-- A record that `createLock` accepts.
abbrev IsWell : Lock → Type 0
IsWell l = ((is_name l.lock_id && is_name l.namespace) ≡ true) × (0 < l.lease_ms)

create-IsWell :
    (i n : String) (lease : Option ℕ) (metadata : List (String × String)) (l : Lock)
    → create_lock i n lease metadata ≡ some l
    → IsWell l
unfolding create_lock
create-IsWell i n lease metadata l h = (ground (arith, h), ground (arith, h))

hydrate-IsWell : (m l : Lock) → hydrate m ≡ some l → IsWell l
unfolding hydrate create_lock
hydrate-IsWell m l h = (ground (arith, h), ground (arith, h))

well-hydrate : (l : Lock) → IsWell l → hydrate l ≡ some l
unfolding hydrate create_lock
well-hydrate l (n, h) = ground (arith, n, h)

acquire-IsWell :
    (l : Lock) (a now : ℕ) (lease : Option ℕ) (metadata : List (String × String))
    → IsWell l
    → IsWell (acquire l a now lease metadata)
unfolding acquire
acquire-IsWell l a now lease metadata (n, h) = (n, ground (arith, h))

settle-IsWell : (l : Lock) (now : ℕ) → IsWell l → IsWell (settle_expiry l now).0
unfolding settle_expiry
settle-IsWell l now (n, h) = (ground (arith, n), ground (arith, h))

acquire-IsHeldUntil :
    (m l : Lock) (spec : Spec) (a now : ℕ)
    → IsWell m
    → acquire m a now spec.lease_ms spec.metadata ≡ l
    → IsHeldUntil a (now + l.lease_ms) l
unfolding acquire
acquire-IsHeldUntil m l spec a now w e =
    subst (λ x. IsHeldUntil a (now + x.lease_ms) x) e
      (
        refl,
        refl,
        refl,
        well-hydrate (acquire m a now spec.lease_ms spec.metadata)
            (acquire-IsWell m a now spec.lease_ms spec.metadata w),
      )

module _ {S : Type 0} ⦃p : LockProvider S⦄ where
  found-IsWell :
      (s : S) (spec : Spec) (lease : Option ℕ) (l : Lock)
      → found_lock s spec lease ≡ some l
      → IsWell l
  unfolding found_lock
  found-IsWell s spec lease l h = elim (Option-cases (p.read s spec.namespace spec.lock_id)) [
    | inl e ↦ create-IsWell spec.lock_id spec.namespace lease [] l (ground (arith, h, e))
    | inr (m, e) ↦ hydrate-IsWell m l (ground (arith, h, e))
  ]

  attempt_gives :
      (u t : S) (m l : Lock) (spec : Spec) (a now : ℕ)
      → attempt (u, m) spec a now ≡ (t, done (some l))
      → (p.write u spec.namespace spec.lock_id l ≡ t)
        × (acquire m a now spec.lease_ms spec.metadata ≡ l)
  unfolding attempt
  attempt_gives u t m l spec a now h = ground (arith, h)

  settled_sound :
      (s : S) (spec : Spec) (now : ℕ) (l : Lock) → IsWell l → IsWell (settled s spec now l).1
  unfolding settled
  settled_sound s spec now l h = settle-IsWell l now h

  -- An attempt that gets a lock has written it, held by the owner for the lease that the lock names, from
  -- the time of the attempt.
  pub acquired-IsHeldUntil :
      (s t : S) (spec : Spec) (a now : ℕ) (l : Lock)
      → spec.owner_id ≡ some a
      → try_acquire s spec now ≡ (t, done (some l))
      → (p.read t spec.namespace spec.lock_id ≡ some l) × IsHeldUntil a (now + l.lease_ms) l
  unfolding try_acquire on_loaded load
  acquired-IsHeldUntil s t spec a now l o h =
      elim (Option-cases (found_lock s spec spec.lease_ms)) [
        | inl e ↦ ground (arith, h, e, o)
        | inr (m, e) ↦
            let (w, g) =
              attempt_gives (settled s spec now m).0 t (settled s spec now m).1 l spec a now
                (ground (arith, h, e, o)) in
            (
              subst (λ x. p.read x spec.namespace spec.lock_id ≡ some l) w
                  (p.read-write (settled s spec now m).0 spec.namespace spec.lock_id l),
              acquire-IsHeldUntil (settled s spec now m).1 l spec a now
                  (settled_sound s spec now m (found-IsWell s spec spec.lease_ms m e)) g,
            )
      ]

  acquired-named :
      (s t : S) (spec : Spec) (now : ℕ) (l : Lock)
      → try_acquire s spec now ≡ (t, done (some l))
      → is_named spec ≡ true
  unfolding try_acquire on_loaded load found_lock
  acquired-named s t spec now l h = elim (Bool-cases (is_named spec)) [
    | inl e ↦ e
    | inr e ↦ ground (arith, h, e)
  ]

  -- Once an owner has acquired a lock, then whatever others call before the end of the lease that it got,
  -- on this lock or on any other, the lock stays the owner's: it is stored as it was answered, the owner is
  -- reported, and until the end of the lease each further attempt of another owner for it gets no lock, its
  -- renewal and its release are refused, and none of these changes the store.
  pub acquired_excludes :
      (s t : S) (spec other : Spec) (a b now later : ℕ) (l : Lock) (cs : List (Call × ℕ))
      → spec.owner_id ≡ some a
      → try_acquire s spec now ≡ (t, done (some l))
      → All (IsOther a (now + l.lease_ms)) cs
      → (other.namespace ≡ spec.namespace) × (other.lock_id ≡ spec.lock_id)
      → other.owner_id ≡ some b
      → is_owner (some a) (some b) ≡ false
      → later < now + l.lease_ms
      → let u = serve_all t cs in
        (p.read u spec.namespace spec.lock_id ≡ some l)
        × (held_by u other later ≡ (u, done (some a)))
        × (try_acquire u other later ≡ (u, done none))
        × (renew_lease u other later ≡ (u, thrown not_owner))
        × (release_lock u other later ≡ (u, thrown not_owner))
  acquired_excludes s t spec other a b now later l cs o h os (sn, si) eb ne early =
      let (r, held) = acquired-IsHeldUntil s t spec a now l o h in
      let (stored, asked, tried, renewed, freed) =
        held_lock_excludes t other a b (now + l.lease_ms) later l cs (rw (sn, si) r) held os eb ne
          early (rw (sn, si) (acquired-named s t spec now l h)) in
      (rw (sym sn, sym si) stored, asked, tried, renewed, freed)

  poll_late :
      (s : S) (spec : Spec) (deadline now : ℕ) (waits : List ((S → S) × ℕ))
      → leb deadline now ≡ true
      → (poll s spec deadline now waits).1 ≢ none
  unfolding poll
  poll_late s spec deadline now [] h e = ground (arith, h, e)
  poll_late s spec deadline now ((others, later) ∷ waits) h e = ground (arith, h, e)

  poll-ends :
      (s : S) (spec : Spec) (deadline now : ℕ) (waits : List ((S → S) × ℕ))
      → any (λ w. leb deadline w.1) waits ≡ true
      → (poll s spec deadline now waits).1 ≢ none
  unfolding poll
  poll-ends s spec deadline now [] h e = ground (arith, h)
  poll-ends s spec deadline now ((others, later) ∷ waits) h e =
      let t = (try_acquire s spec now).0 in
      ground (
        arith,
        h,
        e,
        poll-ends (others t) spec deadline later waits,
        poll_late (others t) spec deadline later waits,
      )

  -- A waiting acquisition answers as soon as a wait of it ends at its deadline or later, whatever others do
  -- to the store meanwhile.
  pub acquire_lock-ends :
      (s : S) (spec : Spec) (now : ℕ) (waits : List ((S → S) × ℕ))
      → any (λ w. leb (now + lease_or spec.wait_ms 0) w.1) waits ≡ true
      → (acquire_lock s spec now waits).1 ≢ none
  unfolding acquire_lock
  acquire_lock-ends s spec now waits h =
      poll-ends s spec (now + lease_or spec.wait_ms 0) now waits h

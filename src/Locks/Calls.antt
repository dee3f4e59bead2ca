-- ===== src/Locks/Calls.antt =====
-- The calls of src/application/lock/lockService.js, and that a call for one lock leaves the others alone.
use Prim.Native.String.{String}
use mathlib.Core.Option
use oncall_backend_private.Prelude.{
  ℕ, ◌≡◌, refl, sym, ◌∙◌, subst, false, Option, none, some, List, [], ◌∷◌, arith, string_key,
  Bool-cases, Option-cases, inl, inr, ◌⊎◌,
}
use oncall_backend_private.Locks.{Lock, settle_expiry, acquire, renew, release}
use oncall_backend_private.Locks.Service.{
  LockProvider, Spec, Reply, settled, load, attempt, try_acquire, renew_loaded, renew_lease,
  release_loaded, release_lock, held_by, found_lock, on_loaded,
}

-- A call of the service.
pub data Call : Type 0 where
  acquires renews releases asks : Spec → Call

abbrev pub spec_of : Call → Spec
spec_of (acquires spec) = spec
spec_of (renews spec) = spec
spec_of (releases spec) = spec
spec_of (asks spec) = spec

module _ {S : Type 0} ⦃p : LockProvider S⦄ where
  -- The store after a call.
  unfoldable pub serve : S → Call × ℕ → S
  serve s (acquires spec, now) = (try_acquire s spec now).0
  serve s (renews spec, now) = (renew_lease s spec now).0
  serve s (releases spec, now) = (release_lock s spec now).0
  serve s (asks spec, now) = (held_by s spec now).0

  unfoldable pub serve_all : S → List (Call × ℕ) → S
  serve_all s [] = s
  serve_all s (c ∷ cs) = serve_all (serve s c) cs

  -- A write to another lock.
  write_elsewhere :
      (s : S) (n m i j : String) (l : Lock)
      → (string_key.same m n ≡ false) ⊎ (string_key.same j i ≡ false)
      → p.read (p.write s n i l) m j ≡ p.read s m j
  write_elsewhere s n m i j l (inl h) = p.read-write_other_namespace s n m i j l h
  write_elsewhere s n m i j l (inr h) = elim (Bool-cases (string_key.same m n)) [
    | inl e ↦
        subst (λ (x : String). p.read (p.write s n i l) x j ≡ p.read s x j)
          (sym ((string_key.same_iff m n).0 e)) (p.read-write_other_id s n i j l h)
    | inr e ↦ p.read-write_other_namespace s n m i j l e
  ]

  -- A call for another lock leaves this lock as it is.
  module _ (n i : String) (s : S) (spec : Spec) (now : ℕ)
      (elsewhere : (string_key.same n spec.namespace ≡ false)
        ⊎ (string_key.same i spec.lock_id ≡ false)) where
    writes_elsewhere :
        (t : S) (l : Lock) → p.read (p.write t spec.namespace spec.lock_id l) n i ≡ p.read t n i
    writes_elsewhere t l = write_elsewhere t spec.namespace n spec.lock_id i l elsewhere

    settled_elsewhere : (l : Lock) → p.read (settled s spec now l).0 n i ≡ p.read s n i
    unfolding settled
    settled_elsewhere l = ground (arith, writes_elsewhere s (settle_expiry l now).0)

    served_elsewhere :
        {A : Type 0} (owner lease : Option ℕ) (f : ℕ → S × Lock → S × Reply A)
        → ((o : ℕ) (t : S) (l : Lock) → p.read (f o (t, l)).0 n i ≡ p.read t n i)
        → p.read (on_loaded s owner (load s spec lease now) f).0 n i ≡ p.read s n i
    unfolding on_loaded load
    served_elsewhere none lease f h = refl
    served_elsewhere (some o) lease f h = elim (Option-cases (found_lock s spec lease)) [
      | inl e ↦ ground (arith, e)
      | inr (l, e) ↦
          subst
            (λ x.
              p.read (on_loaded s (some o) (Option.map (settled s spec now) x) f).0 n i
              ≡ p.read s n i)
            (sym e) (h o (settled s spec now l).0 (settled s spec now l).1 ∙ settled_elsewhere l)
    ]

    attempt_elsewhere :
        (owner : ℕ) (t : S) (l : Lock) → p.read (attempt (t, l) spec owner now).0 n i ≡ p.read t n i
    unfolding attempt
    attempt_elsewhere owner t l =
        ground (arith, writes_elsewhere t (acquire l owner now spec.lease_ms spec.metadata))

    renew_elsewhere :
        (t : S) (l : Lock) → p.read (renew_loaded (t, l) spec now).0 n i ≡ p.read t n i
    unfolding renew_loaded
    renew_elsewhere t l = ground (arith, writes_elsewhere t (renew l now spec.lease_ms))

    release_elsewhere :
        (t : S) (l : Lock) → p.read (release_loaded (t, l) spec).0 n i ≡ p.read t n i
    unfolding release_loaded
    release_elsewhere t l = ground (arith, writes_elsewhere t (release l))

  pub call_elsewhere :
      (n i : String) (s : S) (c : Call) (now : ℕ)
      → (string_key.same n (spec_of c).namespace ≡ false)
        ⊎ (string_key.same i (spec_of c).lock_id ≡ false)
      → p.read (serve s (c, now)) n i ≡ p.read s n i
  unfolding serve try_acquire renew_lease release_lock held_by load
  call_elsewhere n i s (acquires spec) now h =
      served_elsewhere n i s spec now h spec.owner_id spec.lease_ms _
        (attempt_elsewhere n i s spec now h)
  call_elsewhere n i s (renews spec) now h =
      served_elsewhere n i s spec now h spec.owner_id spec.lease_ms _
        (λ _. renew_elsewhere n i s spec now h)
  call_elsewhere n i s (releases spec) now h =
      served_elsewhere n i s spec now h spec.owner_id none _
        (λ _. release_elsewhere n i s spec now h)
  call_elsewhere n i s (asks spec) now h = elim (Option-cases (found_lock s spec none)) [
    | inl e ↦ ground (arith, e)
    | inr (l, e) ↦ ground (arith, e, settled_elsewhere n i s spec now h l)
  ]

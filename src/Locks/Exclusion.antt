-- ===== src/Locks/Exclusion.antt =====
-- Mutual exclusion of the lock service of src/application/lock/lockService.js.
use Prim.Native.String.{String}
use oncall_backend_private.Prelude.{
  ℕ, ◌<◌, ◌≡◌, sym, ap, ◌∙◌, subst, true, false, Option, none, some, List, [], ◌∷◌, arith,
  string_key, Bool-cases, Option-cases, inl, inr, All,
}
use oncall_backend_private.Locks.{Lock, is_live, is_held, settle_expiry}
use oncall_backend_private.Locks.Service.{
  LockProvider, Spec, not_owner, done, thrown, is_owner, hydrate, settled, load, attempt,
  try_acquire, renew_loaded, renew_lease, release_loaded, release_lock, held_by, found_lock,
  on_loaded, is_named,
}
use oncall_backend_private.Locks.Calls.{
  Call, acquires, renews, releases, asks, spec_of, serve, serve_all, call_elsewhere,
}

-- A lock that the owner holds until an instant, and whose record can be read back.
abbrev pub IsHeldUntil : ℕ → ℕ → Lock → Type 0
IsHeldUntil a until l =
    (is_held l.state ≡ true)
    × (l.owner_id ≡ some a)
    × (l.expires_at ≡ some until)
    × (hydrate l ≡ some l)

-- A call of another owner before an instant.
abbrev pub IsOther : ℕ → ℕ → Call × ℕ → Type 0
IsOther a until (c, now) = (is_owner (some a) (spec_of c).owner_id ≡ false) × (now < until)

module _ {S : Type 0} ⦃p : LockProvider S⦄ where
  -- A call for the held lock finds it as it is.
  module _ (s : S) (spec : Spec) (a until now : ℕ) (l : Lock)
      (stored : p.read s spec.namespace spec.lock_id ≡ some l) (held : IsHeldUntil a until l)
      (early : now < until) (named : is_named spec ≡ true) where
    load-held : (lease : Option ℕ) → load s spec lease now ≡ some (s, l)
    unfolding load found_lock settled settle_expiry
    load-held lease = let (h, o, e, y) = held in ground (arith, stored, y, e, early, h, named)

    try_acquire-held :
        (b : ℕ)
        → spec.owner_id ≡ some b
        → is_owner (some a) (some b) ≡ false
        → try_acquire s spec now ≡ (s, done none)
    unfolding try_acquire on_loaded attempt is_live
    try_acquire-held b eb other =
        let (h, o, e, y) = held in
        ground (arith, load-held spec.lease_ms, eb, o, e, h, early, other)

    renew-held :
        (b : ℕ)
        → spec.owner_id ≡ some b
        → is_owner (some a) (some b) ≡ false
        → renew_lease s spec now ≡ (s, thrown not_owner)
    unfolding renew_lease on_loaded renew_loaded is_live
    renew-held b eb other =
        let (h, o, e, y) = held in
        ground (arith, load-held spec.lease_ms, eb, o, e, h, early, other)

    release-held :
        (b : ℕ)
        → spec.owner_id ≡ some b
        → is_owner (some a) (some b) ≡ false
        → release_lock s spec now ≡ (s, thrown not_owner)
    unfolding release_lock on_loaded release_loaded
    release-held b eb other =
        let (h, o, e, y) = held in ground (arith, load-held none, eb, o, e, h, early, other)

    held_by-held : held_by s spec now ≡ (s, done (some a))
    unfolding held_by is_live
    held_by-held = let (h, o, e, y) = held in ground (arith, load-held none, o, e, h, early)

  unnamed_call : (s : S) (c : Call) (now : ℕ) → is_named (spec_of c) ≡ false → serve s (c, now) ≡ s
  unfolding serve try_acquire renew_lease release_lock held_by on_loaded load found_lock
  unnamed_call s (acquires spec) now h = ground (arith, h)
  unnamed_call s (renews spec) now h = ground (arith, h)
  unnamed_call s (releases spec) now h = ground (arith, h)
  unnamed_call s (asks spec) now h = ground (arith, h)

  same_lock :
      (s : S) (c : Call) (a until now : ℕ) (l : Lock)
      → p.read s (spec_of c).namespace (spec_of c).lock_id ≡ some l
      → IsHeldUntil a until l
      → IsOther a until (c, now)
      → is_named (spec_of c) ≡ true
      → serve s (c, now) ≡ s
  unfolding serve try_acquire renew_lease release_lock on_loaded
  same_lock s (acquires spec) a until now l r h (o, lt) named = elim (Option-cases spec.owner_id) [
    | inl e ↦ ground (arith, e)
    | inr (b, e) ↦
        ap (λ q. q.0)
          (try_acquire-held s spec a until now l r h lt named b e
            (subst (λ x. is_owner (some a) x ≡ false) e o))
  ]
  same_lock s (renews spec) a until now l r h (o, lt) named = elim (Option-cases spec.owner_id) [
    | inl e ↦ ground (arith, e)
    | inr (b, e) ↦
        ap (λ q. q.0)
          (renew-held s spec a until now l r h lt named b e
            (subst (λ x. is_owner (some a) x ≡ false) e o))
  ]
  same_lock s (releases spec) a until now l r h (o, lt) named = elim (Option-cases spec.owner_id) [
    | inl e ↦ ground (arith, e)
    | inr (b, e) ↦
        ap (λ q. q.0)
          (release-held s spec a until now l r h lt named b e
            (subst (λ x. is_owner (some a) x ≡ false) e o))
  ]
  same_lock s (asks spec) a until now l r h (o, lt) named =
      ap (λ q. q.0) (held_by-held s spec a until now l r h lt named)

  held_after :
      (s : S) (n i : String) (a until now : ℕ) (l : Lock) (c : Call)
      → p.read s n i ≡ some l
      → IsHeldUntil a until l
      → IsOther a until (c, now)
      → p.read (serve s (c, now)) n i ≡ some l
  held_after s n i a until now l c r h o =
      elim (Bool-cases (string_key.same n (spec_of c).namespace)) [
        | inr e ↦ call_elsewhere n i s c now (inl e) ∙ r
        | inl e ↦ elim (Bool-cases (string_key.same i (spec_of c).lock_id)) [
          | inr f ↦ call_elsewhere n i s c now (inr f) ∙ r
          | inl f ↦ elim (Bool-cases (is_named (spec_of c))) [
            | inr g ↦ ap (λ t. p.read t n i) (unnamed_call s c now g) ∙ r
            | inl g ↦
                ap (λ t. p.read t n i)
                  (same_lock s c a until now l
                    (rw (sym ((string_key.same_iff n (spec_of c).namespace).0 e))
                      (rw (sym ((string_key.same_iff i (spec_of c).lock_id).0 f)) r))
                    h o g)
                ∙ r
          ]
        ]
      ]

  held_through :
      (s : S) (n i : String) (a until : ℕ) (l : Lock) (cs : List (Call × ℕ))
      → p.read s n i ≡ some l
      → IsHeldUntil a until l
      → All (IsOther a until) cs
      → p.read (serve_all s cs) n i ≡ some l
  unfolding serve_all
  held_through s n i a until l [] r h os = r
  held_through s n i a until l ((c, now) ∷ cs) r h (o, os) =
      held_through (serve s (c, now)) n i a until l cs (held_after s n i a until now l c r h o) h os

  pub held_lock_excludes :
      (s : S) (spec : Spec) (a b until now : ℕ) (l : Lock) (cs : List (Call × ℕ))
      → p.read s spec.namespace spec.lock_id ≡ some l
      → IsHeldUntil a until l
      → All (IsOther a until) cs
      → spec.owner_id ≡ some b
      → is_owner (some a) (some b) ≡ false
      → now < until
      → is_named spec ≡ true
      → let t = serve_all s cs in
        (p.read t spec.namespace spec.lock_id ≡ some l)
        × (held_by t spec now ≡ (t, done (some a)))
        × (try_acquire t spec now ≡ (t, done none))
        × (renew_lease t spec now ≡ (t, thrown not_owner))
        × (release_lock t spec now ≡ (t, thrown not_owner))
  held_lock_excludes s spec a b until now l cs r h os e other early named =
      let stored = held_through s spec.namespace spec.lock_id a until l cs r h os in
      let t = serve_all s cs in
      (
        stored,
        held_by-held t spec a until now l stored h early named,
        try_acquire-held t spec a until now l stored h early named b e other,
        renew-held t spec a until now l stored h early named b e other,
        release-held t spec a until now l stored h early named b e other,
      )

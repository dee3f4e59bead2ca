-- ===== src/Events/Pipeline.antt =====
-- From the outbox (src/application/shared/outbox.js) to the effect of a handler behind an inbox
-- (src/application/shared/inbox.js): the consumer's guard is the publisher that the outbox relays to.
pub mod Exactly
use Prim.Native.String.{String}
use oncall_backend_private.Prelude.{
  ℕ, zero, suc, ◌≡◌, ◌<◌, refl, sym, ap, ◌∙◌, subst, Bool, true, false, not, ◌||◌, Option, none,
  some, List, [], ◌∷◌, ◌++◌, map, All, if◌then◌else◌, arith, lookup, insert, erase, lookup-insert,
  lookup-insert_other, lookup-erase, lookup-erase_other, same_pair, same_refl, pair_key, string_key,
  nat_key, Bool-cases, inl, inr, take,
}
use oncall_backend_private.Events.Envelope.{DomainEvent}
use oncall_backend_private.Events.Outbox.{Row, save, load_unrelayed, publish_all}
use oncall_backend_private.Events.Outbox.Runs.{
  Run, ends, crashes, after_run, after_runs, runs-IsSeen,
}
use oncall_backend_private.Events.Inbox.{
  Processed, has, mark, Phase, checking, handling, marking, Guards, Step, delivered, checked,
  resolved, rejected, marked, deliver, go_on, step, steps, new_guards,
}
use oncall_backend_private.Events.Inbox.Once.{
  count, IsSound, IsConsistent, has-mark, steps-IsSound, new-IsSound, step_other,
}

-- Whether the handler resolves in a delivery, one entry for each; it does when none is left.
abbrev pub resolves : List Bool → Bool
resolves [] = true
resolves (b ∷ bs) = b

abbrev pub rest_of : List Bool → List Bool
rest_of [] = []
rest_of (b ∷ bs) = bs

-- One delivery, up to its end: its promise resolves if the event is then recorded.
unfoldable pub receive :
    {P : Type 0} → String → Guards × List Bool → DomainEvent P → (Guards × List Bool) × Bool
receive consumer (g, outcomes) e =
    let k : String × ℕ = (consumer, e.id) in
    let after : Guards = steps g (
      (k, delivered)
      ∷ (k, checked)
      ∷ (k, if resolves outcomes then resolved else rejected)
      ∷ (k, marked)
      ∷ []) in
    ((after, rest_of outcomes), has after.store k)

abbrev pub IsQuiet : Guards → Type 0
IsQuiet g = (k : String × ℕ) → lookup k g.in_flight ≡ none

has-step :
    (g : Guards) (s : (String × ℕ) × Step) (l : String × ℕ)
    → has g.store l ≡ true
    → has (step g s).store l ≡ true
unfolding step deliver go_on
has-step g (k, s) l h = ground (arith, h, has-mark g.store k l)

pub has-steps :
    (g : Guards) (ss : List ((String × ℕ) × Step)) (l : String × ℕ)
    → has g.store l ≡ true
    → has (steps g ss).store l ≡ true
unfolding steps
has-steps g [] l h = h
has-steps g (s ∷ ss) l h = has-steps (step g s) ss l (has-step g s l h)

-- What one consumer and event go through in a call.
abbrev IsAt : Guards → String × ℕ → Option Phase → Bool → Type 0
IsAt g k phase b = (lookup k g.in_flight ≡ phase) × (has g.store k ≡ b)

delivery-IsAt :
    (g : Guards) (c : String) (n : ℕ) (b : Bool)
    → IsAt g (c, suc n) none b
    → IsAt (step g ((c, suc n), delivered)) (c, suc n) (some checking) b
unfolding step deliver
delivery-IsAt g c n b (h, e) = ground (arith, h, e, lookup-insert (c, suc n) checking g.in_flight)

check-IsAt :
    (g : Guards) (k : String × ℕ) (b : Bool)
    → IsAt g k (some checking) b
    → IsAt (step g (k, checked)) k (if b then none else some handling) b
unfolding step go_on
check-IsAt g k b (h, e) =
    ground (arith, h, e, lookup-insert k handling g.in_flight, lookup-erase k g.in_flight)

end-IsAt :
    (g : Guards) (k : String × ℕ) (b : Bool)
    → IsAt g k (some handling) false
    → IsAt (step g (k, if b then resolved else rejected)) k (if b then some marking else none) false
unfolding step go_on
end-IsAt g k b (h, e) =
    ground (arith, h, e, lookup-insert k marking g.in_flight, lookup-erase k g.in_flight)

mark-IsAt :
    (g : Guards) (k : String × ℕ)
    → IsAt g k (some marking) false
    → IsAt (step g (k, marked)) k none true
unfolding step go_on
mark-IsAt g k (h, e) =
    ground (arith, h, e, has-mark g.store k k, same_refl k, lookup-erase k g.in_flight)

rest_end-IsAt :
    (g : Guards) (k : String × ℕ) (b c : Bool)
    → IsAt g k none b
    → IsAt (step g (k, if c then resolved else rejected)) k none b
unfolding step
rest_end-IsAt g k b c (h, e) = ground (arith, h, e)

rest_mark-IsAt :
    (g : Guards) (k : String × ℕ) (b : Bool) → IsAt g k none b → IsAt (step g (k, marked)) k none b
unfolding step
rest_mark-IsAt g k b (h, e) = ground (arith, h, e)

-- A whole call of the guard that is not in flight: it ends, and the event is recorded if it was or if the
-- handler resolves.
quiet_call :
    (g : Guards) (c : String) (n : ℕ) (b resolving : Bool)
    → IsAt g (c, suc n) none b
    → let k : String × ℕ = (c, suc n) in
      IsAt
        (step
          (step
            (step (step g (k, delivered)) (k, checked))
            (k, if resolving then resolved else rejected))
          (k, marked))
        k
        none
        (b || resolving)
quiet_call g c n true r h =
    let k : String × ℕ = (c, suc n) in
    let g1 = step g (k, delivered) in
    let g2 = step g1 (k, checked) in
    let g3 = step g2 (k, if r then resolved else rejected) in
    rest_mark-IsAt g3 k true
      (rest_end-IsAt g2 k true r (check-IsAt g1 k true (delivery-IsAt g c n true h)))
quiet_call g c n false r h =
    let k : String × ℕ = (c, suc n) in
    let g1 = step g (k, delivered) in
    let g2 = step g1 (k, checked) in
    let g3 = step g2 (k, if r then resolved else rejected) in
    pick r g3 (end-IsAt g2 k r (check-IsAt g1 k false (delivery-IsAt g c n false h)))
  where
    pick :
        (q : Bool) (u : Guards)
        → IsAt u (c, suc n) (if q then some marking else none) false
        → IsAt (step u ((c, suc n), marked)) (c, suc n) none q
    pick true u e = mark-IsAt u (c, suc n) e
    pick false u e = rest_mark-IsAt u (c, suc n) false e

no_id :
    (g : Guards) (c : String) (r : Bool)
    → lookup (c, 0) g.in_flight ≡ none
    → steps g (
        ((c, 0), delivered)
        ∷ ((c, 0), checked)
        ∷ ((c, 0), if r then resolved else rejected)
        ∷ ((c, 0), marked)
        ∷ [])
      ≡ g
unfolding steps step deliver
no_id g c r h = ground (arith, h)

flies_elsewhere :
    (g : Guards) (k l : String × ℕ) (ss : List Step)
    → same_pair l k ≡ false
    → lookup l (steps g (map (λ s. (k, s)) ss)).in_flight ≡ lookup l g.in_flight
unfolding steps
flies_elsewhere g k l [] h = refl
flies_elsewhere g k l (s ∷ ss) h =
    flies_elsewhere (step g (k, s)) k l ss h ∙ (step_other g s k l h).1

module _ {P : Type 0} (consumer : String) where
  -- A delivery leaves no call in flight.
  receive_at :
      (g : Guards) (outcomes : List Bool) (e : DomainEvent P)
      → IsQuiet g
      → lookup (consumer, e.id) (receive consumer (g, outcomes) e).0.0.in_flight ≡ none
  unfolding receive steps
  receive_at g outcomes e q = pick e.id (q (consumer, e.id))
    where
      pick :
          (n : ℕ)
          → lookup (consumer, n) g.in_flight ≡ none
          → lookup
              (consumer, n)
              (step
                (step
                  (step (step g ((consumer, n), delivered)) ((consumer, n), checked))
                  ((consumer, n), if resolves outcomes then resolved else rejected))
                ((consumer, n), marked)).in_flight
            ≡ none
      pick zero h =
          ap (λ (u : Guards). lookup (consumer, 0) u.in_flight)
            (no_id g consumer (resolves outcomes) h)
          ∙ h
      pick (suc n) h =
          (quiet_call g consumer n (has g.store (consumer, suc n)) (resolves outcomes) (h, refl)).0

  pub receive-IsQuiet :
      (q : Guards × List Bool) (e : DomainEvent P)
      → IsQuiet q.0
      → IsQuiet (receive consumer q e).0.0
  unfolding receive
  receive-IsQuiet (g, outcomes) e h l = elim (Bool-cases (same_pair l (consumer, e.id))) [
    | inl same ↦
        subst (λ x. lookup x (receive consumer (g, outcomes) e).0.0.in_flight ≡ none)
          (sym ((pair_key.same_iff l (consumer, e.id)).0 same)) (receive_at g outcomes e h)
    | inr other ↦
        flies_elsewhere g (consumer, e.id) l
          (delivered ∷ checked ∷ (if resolves outcomes then resolved else rejected) ∷ marked ∷ [])
          other
        ∙ h l
  ]

  pub receive-IsSound :
      (q : Guards × List Bool) (e : DomainEvent P)
      → IsSound q.0
      → IsSound (receive consumer q e).0.0
  unfolding receive
  receive-IsSound (g, outcomes) e h = steps-IsSound g _ h

  -- A delivery in which the handler resolves is recorded.
  pub receive_resolves :
      (g : Guards) (e : DomainEvent P)
      → 0 < e.id
      → IsQuiet g
      → (receive consumer (g, []) e).1 ≡ true
  unfolding receive steps
  receive_resolves g e proper q = pick e.id proper (q (consumer, e.id))
    where
      pick :
          (n : ℕ)
          → 0 < n
          → lookup (consumer, n) g.in_flight ≡ none
          → has
              (step
                (step
                  (step (step g ((consumer, n), delivered)) ((consumer, n), checked))
                  ((consumer, n), resolved))
                ((consumer, n), marked)).store
              (consumer, n)
            ≡ true
      pick zero p h = ground (arith, p)
      pick (suc n) p h =
          (quiet_call g consumer n (has g.store (consumer, suc n)) true (h, refl)).1
          ∙ ground (arith, has g.store (consumer, suc n))

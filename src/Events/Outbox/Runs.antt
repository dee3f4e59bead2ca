-- ===== src/Events/Outbox/Runs.antt =====
-- Runs of the relays of src/application/shared/outbox.js, with runs that stop between two publications.
use oncall_backend_private.Prelude.{
  ℕ, Bool, true, not, ◌≡◌, refl, ◌∙◌, List, [], ◌∷◌, map, includes, if◌then◌else◌, arith, All, take,
  ◌||◌, ◌==◌, ==_iff, subst, ◌<◌,
}
use oncall_backend_private.Events.Envelope.{DomainEvent}
use oncall_backend_private.Events.Outbox.{
  Row, mark_relayed, load_unrelayed, publish_all, relay_pending, is_empty,
}
use oncall_backend_private.Events.Outbox.Relay.{unrelayed-relay_pending, keep-none, own_ids}

-- A run of the relay: it ends, or the process stops after some publications, before any row is marked. What
-- is published to (Q) is kept. A stop inside a publication leaves what one before or after it leaves only
-- where the receiver's effect and its mark are one transaction, which src/application/shared/inbox.js
-- asks of a durable store; with the store in memory, or a stop between effect and mark, it is not modelled.
pub data Run : Type 0 where
  ends : Run
  crashes : ℕ → Run

-- The receiver has seen what is marked as relayed.
abbrev pub IsSeen : {P Q : Type 0} → (Q → ℕ → Bool) → List (Row P) × Q → Type 0
IsSeen seen (rows, q) = All (λ (r : Row _). (not r.relayed || seen q r.event.id) ≡ true) rows

module _ {P Q : Type 0} (publish : Q → DomainEvent P → Q × Bool) where
  unfoldable pub after_run : List (Row P) × Q → Run → List (Row P) × Q
  after_run (rows, q) ends = let (left, end, ids) = relay_pending publish rows q in (left, end)
  after_run (rows, q) (crashes n) = (rows, (publish_all publish q (take n (load_unrelayed rows))).0)

  unfoldable pub after_runs : List (Row P) × Q → List Run → List (Row P) × Q
  after_runs s [] = s
  after_runs s (r ∷ rs) = after_runs (after_run s r) rs

  -- What every publication keeps, every run keeps.
  module _ {κ} (J : Q → Type κ) (kept : (q : Q) (e : DomainEvent P) → J q → J (publish q e).0) where
    pub publish_all-keeps :
        (q : Q) (events : List (DomainEvent P)) → J q → J (publish_all publish q events).0
    unfolding publish_all
    publish_all-keeps q [] h = h
    publish_all-keeps q (e ∷ events) h = publish_all-keeps (publish q e).0 events (kept q e h)

    pub runs-keep : (s : List (Row P) × Q) (rs : List Run) → J s.1 → J (after_runs s rs).1
    unfolding after_runs after_run relay_pending
    runs-keep s [] h = h
    runs-keep (rows, q) (ends ∷ rs) h =
        runs-keep (after_run (rows, q) ends) rs (publish_all-keeps q (load_unrelayed rows) h)
    runs-keep (rows, q) (crashes n ∷ rs) h =
        runs-keep (after_run (rows, q) (crashes n)) rs
          (publish_all-keeps q (take n (load_unrelayed rows)) h)

    -- Where every publication resolves, all the ids are answered.
    pub publish_all-ids :
        ((q : Q) (e : DomainEvent P) → 0 < e.id → J q → (publish q e).1 ≡ true)
        → (q : Q) (events : List (DomainEvent P)) → J q
        → All (λ (e : DomainEvent P). 0 < e.id) events
        → (publish_all publish q events).1 ≡ map (λ (e : DomainEvent P). e.id) events
    unfolding publish_all
    publish_all-ids ok q [] h ps = refl
    publish_all-ids ok q (e ∷ events) h (p, ps) =
        ground (arith, ok q e p h, publish_all-ids ok (publish q e).0 events (kept q e h) ps)

  -- The events of the rows stay as they are.
  events-mark :
      (rows : List (Row P)) (ids : List ℕ)
      → map (λ (r : Row P). r.event) (mark_relayed rows ids) ≡ map (λ (r : Row P). r.event) rows
  unfolding mark_relayed
  events-mark [] ids = refl
  events-mark (r ∷ rows) ids = ground (arith, events-mark rows ids)

  pub events-runs :
      (s : List (Row P) × Q) (rs : List Run)
      → map (λ (r : Row P). r.event) (after_runs s rs).0 ≡ map (λ (r : Row P). r.event) s.0
  unfolding after_runs after_run relay_pending
  events-runs s [] = refl
  events-runs (rows, q) (ends ∷ rs) =
      events-runs (after_run (rows, q) ends) rs
      ∙ ground (arith, events-mark rows (publish_all publish q (load_unrelayed rows)).1)
  events-runs (rows, q) (crashes n ∷ rs) = events-runs (after_run (rows, q) (crashes n)) rs

  -- What a publication that resolves makes true of the receiver, for good.
  module _ (seen : Q → ℕ → Bool)
      (kept : (q : Q) (e : DomainEvent P) (i : ℕ) → seen q i ≡ true → seen (publish q e).0 i ≡ true)
      (made : (q : Q) (e : DomainEvent P)
        → (publish q e).1 ≡ true
        → seen (publish q e).0 e.id ≡ true) where
    kept_all :
        (q : Q) (events : List (DomainEvent P)) (i : ℕ)
        → seen q i ≡ true
        → seen (publish_all publish q events).0 i ≡ true
    unfolding publish_all
    kept_all q [] i h = h
    kept_all q (e ∷ events) i h = kept_all (publish q e).0 events i (kept q e i h)

    made_here :
        (q : Q) (e : DomainEvent P) (events : List (DomainEvent P)) (i : ℕ)
        → (e.id == i) ≡ true
        → (publish q e).1 ≡ true
        → seen (publish_all publish (publish q e).0 events).0 i ≡ true
    made_here q e events i same ok =
        subst (λ j. seen (publish_all publish (publish q e).0 events).0 j ≡ true)
          ((==_iff e.id i).0 same) (kept_all (publish q e).0 events e.id (made q e ok))

    made_all :
        (q : Q) (events : List (DomainEvent P)) (i : ℕ)
        → includes (publish_all publish q events).1 i ≡ true
        → seen (publish_all publish q events).0 i ≡ true
    unfolding publish_all includes
    made_all q [] i h = ground (arith, h)
    made_all q (e ∷ events) i h =
        ground (arith, h, made_here q e events i, made_all (publish q e).0 events i)

    mark-IsSeen :
        (rows : List (Row P)) (q q' : Q) (ids : List ℕ)
        → ((i : ℕ) → seen q i ≡ true → seen q' i ≡ true)
        → ((i : ℕ) → includes ids i ≡ true → seen q' i ≡ true)
        → IsSeen seen (rows, q)
        → IsSeen seen (mark_relayed rows ids, q')
    unfolding mark_relayed
    mark-IsSeen [] q q' ids k m h = tt
    mark-IsSeen (r ∷ rows) q q' ids k m (hr, h) =
        (ground (arith, hr, k r.event.id, m r.event.id), mark-IsSeen rows q q' ids k m h)

    later-IsSeen :
        (rows : List (Row P)) (q q' : Q)
        → ((i : ℕ) → seen q i ≡ true → seen q' i ≡ true)
        → IsSeen seen (rows, q)
        → IsSeen seen (rows, q')
    later-IsSeen [] q q' k h = tt
    later-IsSeen (r ∷ rows) q q' k (hr, h) =
        (ground (arith, hr, k r.event.id), later-IsSeen rows q q' k h)

    run-IsSeen : (s : List (Row P) × Q) (r : Run) → IsSeen seen s → IsSeen seen (after_run s r)
    unfolding after_run relay_pending
    run-IsSeen (rows, q) ends h =
        pick (publish_all publish q (load_unrelayed rows)).1
          (mark-IsSeen rows q (publish_all publish q (load_unrelayed rows)).0
            (publish_all publish q (load_unrelayed rows)).1 (kept_all q (load_unrelayed rows))
            (made_all q (load_unrelayed rows)) h)
          (later-IsSeen rows q (publish_all publish q (load_unrelayed rows)).0
            (kept_all q (load_unrelayed rows)) h)
      where
        pick :
            (ids : List ℕ)
            → IsSeen seen (mark_relayed rows ids, (publish_all publish q (load_unrelayed rows)).0)
            → IsSeen seen (rows, (publish_all publish q (load_unrelayed rows)).0)
            → IsSeen seen (
              if not (is_empty ids) then mark_relayed rows ids else rows,
              (publish_all publish q (load_unrelayed rows)).0,
            )
        pick [] g f = f
        pick (i ∷ ids) g f = g
    run-IsSeen (rows, q) (crashes n) h =
        later-IsSeen rows q (publish_all publish q (take n (load_unrelayed rows))).0
          (λ i. kept_all q (take n (load_unrelayed rows)) i) h

    pub runs-IsSeen :
        (s : List (Row P) × Q) (rs : List Run) → IsSeen seen s → IsSeen seen (after_runs s rs)
    unfolding after_runs
    runs-IsSeen s [] h = h
    runs-IsSeen s (r ∷ rs) h = runs-IsSeen (after_run s r) rs (run-IsSeen s r h)

-- A run in which every publication resolves leaves nothing to relay.
pub drained :
    {P Q : Type 0} (publish : Q → DomainEvent P → Q × Bool) (rows : List (Row P)) (q : Q)
    → (publish_all publish q (load_unrelayed rows)).1
      ≡ map (λ (e : DomainEvent P). e.id) (load_unrelayed rows)
    → load_unrelayed (after_run publish (rows, q) ends).0 ≡ []
unfolding after_run relay_pending
drained publish rows q h =
    unrelayed-relay_pending publish rows q
    ∙ rw h (
        keep-none (map (λ (e : DomainEvent _). e.id) (load_unrelayed rows)) (load_unrelayed rows)
          (own_ids (load_unrelayed rows)))

-- ===== src/Events/Outbox.antt =====
-- The transactional outbox of src/application/shared/outbox.js. The publisher is a parameter: it takes a
-- state and an event to a state, with true where `publish` resolves and false where it throws.
pub mod Relay
pub mod Runs
use oncall_backend_private.Prelude.{
  ℕ, zero, suc, Bool, true, false, not, ◌&&◌, Option, none, some, List, [], ◌∷◌, ◌++◌, map, keep,
  includes, if◌then◌else◌,
}
use oncall_backend_private.Events.Envelope.{DomainEvent}

-- A row of the outbox.
pub record Row (P : Type 0) : Type 0 where
  pub event : DomainEvent P
  pub relayed : Bool

-- The unit of work of `begin`.
pub record UnitOfWork (P : Type 0) : Type 0 where
  pub staged : List (DomainEvent P)
  pub committed : Bool

abbrev pub is_empty {ℓ} : {A : Type ℓ} → List A → Bool
is_empty [] = true
is_empty (x ∷ xs) = false

module _ {P : Type 0} where
  -- `save`, `markRelayed`, `loadUnrelayed` of the store in memory.
  unfoldable pub save : List (Row P) → List (DomainEvent P) → List (Row P)
  save rows events = rows ++ map (λ e. record { event = e; relayed = false }) events

  unfoldable pub mark_relayed : List (Row P) → List ℕ → List (Row P)
  mark_relayed [] ids = []
  mark_relayed (r ∷ rows) ids =
      (if includes ids r.event.id then record r { relayed = true } else r) ∷ mark_relayed rows ids

  unfoldable pub load_unrelayed : List (Row P) → List (DomainEvent P)
  load_unrelayed [] = []
  load_unrelayed (r ∷ rows) =
      let rest = load_unrelayed rows in if r.relayed then rest else r.event ∷ rest

  -- `begin`, `stage`, `persist`; an event without an id is not staged (the source throws).
  abbrev pub begin : UnitOfWork P
  begin = record { staged = []; committed = false }

  unfoldable pub stage : UnitOfWork P → DomainEvent P → Option (UnitOfWork P)
  stage u e = elim e.id [ zero ↦ none | suc n ↦ some (record u { staged = u.staged ++ e ∷ [] }) ]

  unfoldable pub persist : List (Row P) → UnitOfWork P → List (Row P) × UnitOfWork P
  persist rows u = (save rows u.staged, record u { committed = true })

  module _ {Q : Type 0} (publish : Q → DomainEvent P → Q × Bool) where
    -- The loop of `relay` and of `relayPending`: the ids of the events that were published.
    unfoldable pub publish_all : Q → List (DomainEvent P) → Q × List ℕ
    publish_all q [] = (q, [])
    publish_all q (e ∷ events) =
        let (after, ok) = publish q e in
        let (end, ids) = publish_all after events in (end, if ok then e.id ∷ ids else ids)

    -- `relay` of a unit of work.
    unfoldable pub relay : List (Row P) → Q → UnitOfWork P → List (Row P) × Q × List ℕ
    relay rows q u =
        let (after, ids) = publish_all q u.staged in
        (if u.committed && not (is_empty ids) then mark_relayed rows ids else rows, after, ids)

    -- `relayPending`.
    unfoldable pub relay_pending : List (Row P) → Q → List (Row P) × Q × List ℕ
    relay_pending rows q =
        let (after, ids) = publish_all q (load_unrelayed rows) in
        (if not (is_empty ids) then mark_relayed rows ids else rows, after, ids)

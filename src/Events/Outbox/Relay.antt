-- ===== src/Events/Outbox/Relay.antt =====
-- What a relay of src/application/shared/outbox.js leaves to be relayed.
use oncall_backend_private.Prelude.{
  ℕ, Bool, true, not, ◌≡◌, refl, sym, ap, List, [], ◌∷◌, ◌++◌, map, keep, includes, if◌then◌else◌,
  arith, All, ==_refl, All-imply,
}
use oncall_backend_private.Events.Envelope.{DomainEvent}
use oncall_backend_private.Events.Outbox.{
  Row, save, mark_relayed, load_unrelayed, publish_all, relay_pending, is_empty,
}

-- Every event is among its own ids.
pub keep-none :
    {P : Type 0} (ids : List ℕ) (events : List (DomainEvent P))
    → All (λ (e : DomainEvent P). includes ids e.id ≡ true) events
    → keep (λ (e : DomainEvent P). not (includes ids e.id)) events ≡ []
unfolding keep
keep-none ids [] h = refl
keep-none ids (e ∷ events) (h, hs) = ground (arith, h, keep-none ids events hs)

pub own_ids :
    {P : Type 0} (events : List (DomainEvent P))
    → All
        (λ (e : DomainEvent P). includes (map (λ (x : DomainEvent P). x.id) events) e.id ≡ true)
        events
unfolding includes
own_ids [] = tt
own_ids (e ∷ events) =
    let ids = map (λ (x : DomainEvent _). x.id) events in
    (
      ground (arith, ==_refl e.id),
      All-imply (λ (x : DomainEvent _). includes ids x.id ≡ true)
          (λ (x : DomainEvent _). includes (e.id ∷ ids) x.id ≡ true) events
          (λ x h. ground (arith, h)) (own_ids events),
    )

module _ {P : Type 0} where
  -- The rows that a mark leaves unrelayed.
  pub unrelayed-mark :
      (rows : List (Row P)) (ids : List ℕ)
      → load_unrelayed (mark_relayed rows ids)
        ≡ keep (λ (e : DomainEvent P). not (includes ids e.id)) (load_unrelayed rows)
  unfolding load_unrelayed mark_relayed keep
  unrelayed-mark [] ids = refl
  unrelayed-mark (r ∷ rows) ids = ground (arith, unrelayed-mark rows ids)

  keep_all :
      (events : List (DomainEvent P))
      → keep (λ (e : DomainEvent P). not (includes [] e.id)) events ≡ events
  unfolding keep includes
  keep_all [] = refl
  keep_all (e ∷ events) = ap (λ x. e ∷ x) (keep_all events)

  unrelayed-save :
      (rows : List (Row P)) (events : List (DomainEvent P))
      → load_unrelayed (save rows events) ≡ load_unrelayed rows ++ events
  unfolding save load_unrelayed
  unrelayed-save [] [] = refl
  unrelayed-save [] (e ∷ events) = ap (λ x. e ∷ x) (unrelayed-save [] events)
  unrelayed-save (r ∷ rows) events = ground (arith, unrelayed-save rows events)

  module _ {Q : Type 0} (publish : Q → DomainEvent P → Q × Bool) where
    -- A relay of what is pending leaves exactly the events of which no publication with their id resolved.
    pub unrelayed-relay_pending :
        (rows : List (Row P)) (q : Q)
        → let (after, end, ids) = relay_pending publish rows q in
          load_unrelayed after
          ≡ keep (λ (e : DomainEvent P). not (includes ids e.id)) (load_unrelayed rows)
    unfolding relay_pending
    unrelayed-relay_pending rows q =
        let ids = (publish_all publish q (load_unrelayed rows)).1 in
        pick ids (unrelayed-mark rows ids)
      where
        pick :
            (ids : List ℕ)
            → load_unrelayed (mark_relayed rows ids)
              ≡ keep (λ (e : DomainEvent P). not (includes ids e.id)) (load_unrelayed rows)
            → load_unrelayed (if not (is_empty ids) then mark_relayed rows ids else rows)
              ≡ keep (λ (e : DomainEvent P). not (includes ids e.id)) (load_unrelayed rows)
        pick [] h = sym (keep_all (load_unrelayed rows))
        pick (i ∷ ids) h = h

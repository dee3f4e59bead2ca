-- ===== src/Events/Envelope.antt =====
-- The envelope of src/domain/shared/DomainEvent.js. An id is a number, 0 where the source has no id; the
-- payload is an abstract type, since no code here reads it.
use Prim.Native.String.{String}
use oncall_backend_private.Prelude.{
  ℕ, zero, suc, ◌<◌, ◌≡◌, ◌∙◌, inl, inr, Option-cases, Bool, true, false, ◌&&◌, Option, none, some,
  List, [], ◌∷◌, arith, if◌then◌else◌,
}

pub record DomainEvent (P : Type 0) : Type 0 where
  pub id : ℕ
  pub type : String
  pub version : ℕ
  pub occurred_at : ℕ
  pub producer : String
  pub subject : Option String
  pub correlation_id : ℕ
  pub causation_id : Option ℕ
  pub payload : P

-- The argument of `createDomainEvent`.
pub record EventSpec (P : Type 0) : Type 0 where
  pub id : ℕ
  pub type : String
  pub version : Option ℕ
  pub occurred_at : Option ℕ
  pub producer : String
  pub subject : Option String
  pub correlation_id : ℕ
  pub causation_id : Option ℕ
  pub payload : P

abbrev is_word : String → Bool
is_word String.[] = false
is_word (String.◌∷◌ c s) = true

-- `a || b` on ids.
abbrev pub id_or : ℕ → ℕ → ℕ
id_or zero b = b
id_or (suc a) b = suc a

abbrev or_default : Option ℕ → ℕ → ℕ
or_default none b = b
or_default (some a) b = a

module _ {P : Type 0} where
  -- `createDomainEvent` at a time of the clock, with the id that the factory would give.
  unfoldable pub create_domain_event : EventSpec P → ℕ → ℕ → Option (DomainEvent P)
  create_domain_event spec now fresh =
      let id = id_or spec.id fresh in
      if is_word spec.type && is_word spec.producer
      then some (record {
        id = id;
        type = spec.type;
        version = or_default spec.version 1;
        occurred_at = or_default spec.occurred_at now;
        producer = spec.producer;
        subject = spec.subject;
        correlation_id = id_or spec.correlation_id id;
        causation_id = spec.causation_id;
        payload = spec.payload;
      })
      else none

  -- `follows`.
  unfoldable pub follows : DomainEvent P → EventSpec P → ℕ → ℕ → Option (DomainEvent P)
  follows parent spec now fresh =
      if is_absent parent.id
      then none
      else create_domain_event
          (record spec {
            correlation_id = id_or parent.correlation_id parent.id;
            causation_id = some parent.id;
          })
          now fresh
    where
      is_absent : ℕ → Bool
      is_absent zero = true
      is_absent (suc n) = false

  -- A chain of events, each following the one before: none where one is refused.
  pub chain : DomainEvent P → List (EventSpec P × ℕ × ℕ) → Option (DomainEvent P)
  chain e [] = some e
  chain e ((spec, now, fresh) ∷ rest) = elim (follows e spec now fresh) [
    | none ↦ none
    | some child ↦ chain child rest
  ]

  follows_correlation :
      (e c : DomainEvent P) (spec : EventSpec P) (now fresh : ℕ)
      → 0 < e.correlation_id
      → follows e spec now fresh ≡ some c
      → c.correlation_id ≡ e.correlation_id
  unfolding follows create_domain_event
  follows_correlation e c spec now fresh h g = ground (arith, h, g)

  chain_correlation :
      (e last : DomainEvent P) (rest : List (EventSpec P × ℕ × ℕ))
      → 0 < e.correlation_id
      → chain e rest ≡ some last
      → last.correlation_id ≡ e.correlation_id
  unfolding chain
  chain_correlation e last [] h g = ground (arith, g)
  chain_correlation e last ((spec, now, fresh) ∷ rest) h g =
      elim (Option-cases (follows e spec now fresh)) [
        | inl n ↦ ground (arith, g, n)
        | inr (c, n) ↦
            let same = follows_correlation e c spec now fresh h n in
            chain_correlation c last rest (rw same h) (ground (arith, g, n)) ∙ same
      ]

  root_correlation :
      (spec : EventSpec P) (now fresh : ℕ) (root : DomainEvent P)
      → spec.correlation_id ≡ 0
      → 0 < fresh
      → create_domain_event spec now fresh ≡ some root
      → (root.correlation_id ≡ root.id) × (0 < root.correlation_id)
  unfolding create_domain_event
  root_correlation spec now fresh root z f c = (ground (arith, z, c), ground (arith, z, f, c))

  -- An event that is created without a correlation, by a factory that gives proper ids, correlates to itself,
  -- and every event at the end of a chain that follows from it carries that same correlation.
  pub correlation_inherited :
      (spec : EventSpec P) (now fresh : ℕ) (root last : DomainEvent P)
      (rest : List (EventSpec P × ℕ × ℕ))
      → spec.correlation_id ≡ 0
      → 0 < fresh
      → create_domain_event spec now fresh ≡ some root
      → chain root rest ≡ some last
      → (root.correlation_id ≡ root.id) × (last.correlation_id ≡ root.id)
  correlation_inherited spec now fresh root last rest z f c h =
      let (own, proper) = root_correlation spec now fresh root z f c in
      (own, chain_correlation root last rest proper h ∙ own)

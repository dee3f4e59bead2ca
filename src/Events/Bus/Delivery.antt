-- ===== src/Events/Bus/Delivery.antt =====
-- What a publication on the bus of src/application/shared/eventBus.js does.
use oncall_backend_private.Prelude.{ℕ, suc, Bool, true, false, ◌&&◌, List, [], ◌∷◌, ltb, leb}
use oncall_backend_private.Events.Envelope.{DomainEvent}
use oncall_backend_private.Events.Bus.{Entry, DeadLetter, Bus, is_for}

-- How often a handler throws before it first resolves.
pub failures : List Bool → ℕ
failures [] = 0
failures (true ∷ bs) = 0
failures (false ∷ bs) = suc (failures bs)

module _ {P : Type 0} where
  -- The dead letter of a handler that has used up its attempts.
  abbrev pub letter : ℕ → DomainEvent P → Entry → DeadLetter P
  letter attempts e entry = record { event = e; handler = entry.name; attempts = attempts }

  -- The subscriptions that a publication reaches, and those that use up their attempts.
  abbrev pub is_reached : ℕ → DomainEvent P → Entry → Bool
  is_reached retries e entry =
      is_for entry.version e.version && leb (failures entry.attempts) retries

  abbrev pub is_lost : ℕ → DomainEvent P → Entry → Bool
  is_lost retries e entry = is_for entry.version e.version && ltb retries (failures entry.attempts)

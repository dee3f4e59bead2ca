-- ===== src/Scenarios/Deliveries.antt =====
-- Scenarios of the domain events.
use Prim.Native.String.{String}
use oncall_backend_private.Prelude.{
  ℕ, ◌≤◌, ◌≡◌, false, none, some, List, [], ◌∷◌, string_key, nat_key, pair_key, lookup,
  if◌then◌else◌,
}
use oncall_backend_private.Events.Envelope.{DomainEvent}
use oncall_backend_private.Events.Inbox.Once.{count, effects_once, is_done}
use oncall_backend_private.Events.Inbox.{
  delivered, checked, resolved, rejected, marked, Step, new_guards, steps, has,
}
use oncall_backend_private.Events.Bus.{Entry, Bus}

abbrev trip_completed : DomainEvent ℕ
trip_completed = record {
  id = 5;
  type = "TripCompleted";
  version = 1;
  occurred_at = 100;
  producer = "trips";
  subject = none;
  correlation_id = 5;
  causation_id = none;
  payload = 0;
}

abbrev trip_rated : DomainEvent ℕ
trip_rated = record trip_completed { id = 6; type = "TripRated"; causation_id = some 5 }

abbrev committed : List (DomainEvent ℕ)
committed = trip_completed ∷ trip_rated ∷ []

-- A handler that throws, a redelivery and a delivery that races it.
abbrev redeliveries : List ((String × ℕ) × Step)
redeliveries =
    (("billing", 5), delivered)
    ∷ (("billing", 5), checked)
    ∷ (("billing", 5), rejected)
    ∷ (("billing", 5), delivered)
    ∷ (("billing", 5), checked)
    ∷ (("billing", 5), delivered)
    ∷ (("billing", 5), resolved)
    ∷ (("billing", 5), marked)
    ∷ (("billing", 5), delivered)
    ∷ (("billing", 5), checked)
    ∷ []

effects_once_example :
    let g = steps new_guards redeliveries in
    (count g.effects ("billing", 5) ≤ 1)
    × (count g.effects ("billing", 5) ≡ (
        if is_done (lookup ("billing", 5) g.in_flight) (has g.store ("billing", 5)) then 1 else 0))
effects_once_example = effects_once redeliveries ("billing", 5)

abbrev trip_bus : Bus ℕ
trip_bus = record {
  max_retries = 3;
  base_delay = 20;
  subscriptions =
      (
        "TripCompleted",
        record { number = 1; name = "mail"; version = none; attempts = false ∷ false ∷ [] }
            ∷ record {
              number = 2;
              name = "push";
              version = some 1;
              attempts = false ∷ false ∷ false ∷ false ∷ [];
            }
            ∷ record { number = 3; name = "log"; version = some 2; attempts = [] }
            ∷ [],
      )
      ∷ [];
  delivered = 0;
  dead_lettered = 0;
  parked = [];
  slept = 0;
}

-- The order in which the deliveries end.
abbrev backwards : List Entry → List Entry
backwards (a ∷ b ∷ es) = b ∷ a ∷ es
backwards es = es

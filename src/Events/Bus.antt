-- ===== src/Events/Bus.antt =====
-- The bus of src/application/shared/eventBus.js. A handler is what each of its attempts does, true where it
-- resolves; it resolves when no attempt is listed any more. The deliveries of a
-- publication run side by side in the source (`Promise.all`); each changes the counters and the dead
-- letters in one step, when it ends, so that a publication is given the order in which they end.
pub mod Delivery
use Prim.Native.String.{String}
use oncall_backend_private.Prelude.{
  ℕ, zero, suc, ◌+◌, ◌*◌, Bool, true, false, not, Option, none, some, List, [], ◌∷◌, ◌++◌, ◌==◌,
  if◌then◌else◌, string_key, lookup, insert,
}
use oncall_backend_private.Events.Envelope.{DomainEvent}

-- A subscription; the number tells two of them apart (`indexOf(entry)`).
pub record Entry : Type 0 where
  pub number : ℕ
  pub name : String
  pub version : Option ℕ
  pub attempts : List Bool

-- What is parked in the dead letter queue.
pub record DeadLetter (P : Type 0) : Type 0 where
  pub event : DomainEvent P
  pub handler : String
  pub attempts : ℕ

pub record Bus (P : Type 0) : Type 0 where
  pub max_retries : ℕ
  pub base_delay : ℕ
  pub subscriptions : List (String × List Entry)
  pub delivered : ℕ
  pub dead_lettered : ℕ
  pub parked : List (DeadLetter P)
  pub slept : ℕ

abbrev pub resolves : List Bool → Bool
resolves [] = true
resolves (b ∷ bs) = b

abbrev pub rest_of : List Bool → List Bool
rest_of [] = []
rest_of (b ∷ bs) = bs

unfoldable pub without : ℕ → List Entry → List Entry
without n [] = []
without n (e ∷ es) = let rest = without n es in if e.number == n then es else e ∷ rest

abbrev pub is_for : Option ℕ → ℕ → Bool
is_for none version = true
is_for (some v) version = v == version

module _ {P : Type 0} where
  unfoldable pub entries : Bus P → String → List Entry
  entries bus type = elim (lookup type bus.subscriptions) [ none ↦ [] | some es ↦ es ]

  -- `subscribe`; the type and the handler are given.
  unfoldable pub subscribe : Bus P → String → Entry → Bus P
  subscribe bus type entry = record bus {
    subscriptions = insert type (entries bus type ++ entry ∷ []) bus.subscriptions;
  }

  -- What `subscribe` returns: the end of the subscription.
  unfoldable pub unsubscribe : Bus P → String → ℕ → Bus P
  unsubscribe bus type n = elim (lookup type bus.subscriptions) [
    | none ↦ bus
    | some es ↦ record bus { subscriptions = insert type (without n es) bus.subscriptions }
  ]

  -- The loop of `deliverWithRetry`, with the retries that are left and the attempt's number.
  unfoldable pub try_from : Bus P → DomainEvent P → String → ℕ → ℕ → List Bool → Bus P
  try_from bus e name zero attempt outcomes =
      if resolves outcomes then record bus { delivered = suc bus.delivered } else record bus {
        dead_lettered = suc bus.dead_lettered;
        parked = bus.parked ++ record { event = e; handler = name; attempts = suc attempt } ∷ [];
      }
  try_from bus e name (suc left) attempt outcomes =
      let waited = record bus { slept = bus.slept + bus.base_delay * suc attempt } in
      let rest = try_from waited e name left (suc attempt) (rest_of outcomes) in
      if resolves outcomes then record bus { delivered = suc bus.delivered } else rest

  -- `deliverWithRetry`; `slept` is the sum of the waits.
  unfoldable pub deliver_with_retry : Bus P → Entry → DomainEvent P → Bus P
  deliver_with_retry bus entry e =
      if is_for entry.version e.version
      then try_from bus e entry.name bus.max_retries 0 entry.attempts
      else bus

  unfoldable pub deliver_all : Bus P → List Entry → DomainEvent P → Bus P
  deliver_all bus [] e = bus
  deliver_all bus (entry ∷ es) e = deliver_all (deliver_with_retry bus entry e) es e

  -- `publish`, with what the event loop makes of the order in which the deliveries end.
  unfoldable pub publish : (List Entry → List Entry) → Bus P → DomainEvent P → Bus P
  publish finishing bus e = deliver_all bus (finishing (entries bus e.type)) e

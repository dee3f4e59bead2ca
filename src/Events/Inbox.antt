-- ===== src/Events/Inbox.antt =====
-- The inbox of src/application/shared/inbox.js.
pub mod Once
use Prim.Native.String.{String}
use oncall_backend_private.Prelude.{
  ℕ, zero, suc, Bool, true, false, Option, none, some, List, [], ◌∷◌, ◌++◌, includes, if◌then◌else◌,
  Key, string_key, nat_key, pair_key, lookup, insert, erase, ◌==◌,
}

-- The store in memory: the processed ids of each consumer.
abbrev pub Processed : Type 0
Processed = List (String × List ℕ)

unfoldable pub ids_of : Processed → String → List ℕ
ids_of store consumer = elim (lookup consumer store) [ none ↦ [] | some ids ↦ ids ]

-- `has`, `mark`.
unfoldable pub has : Processed → String × ℕ → Bool
has store (consumer, id) = includes (ids_of store consumer) id

unfoldable pub mark : Processed → String × ℕ → Processed
mark store (consumer, id) =
    let ids = ids_of store consumer in
    insert consumer (if includes ids id then ids else ids ++ id ∷ []) store

-- Where a call of `runOnce` stands: before the test of the store, in the handler, before the mark.
pub data Phase : Type 0 where
  checking handling marking : Phase

-- The guards of a process: the store, the calls in flight by consumer and event, and the handlers that have
-- resolved, the latest first.
pub record Guards : Type 0 where
  pub store : Processed
  pub in_flight : List ((String × ℕ) × Phase)
  pub effects : List (String × ℕ)

-- What happens: an event is delivered to a consumer, or the call that is in flight for them goes on, in
-- which the handler resolves or rejects.
pub data Step : Type 0 where
  delivered checked resolved rejected marked : Step

-- `guarded`: an event without an id is refused, and a call joins the one in flight.
unfoldable pub deliver : Guards → String × ℕ → Guards
deliver g k = elim k.1 [
  | zero ↦ g
  | suc n ↦ elim (lookup k g.in_flight) [
    | some phase ↦ g
    | none ↦ record g { in_flight = insert k checking g.in_flight }
  ]
]

-- One step of `runOnce`; a step that the call in flight is not at does not happen.
unfoldable pub go_on : Guards → String × ℕ → Step → Phase → Guards
go_on g k checked checking =
    if has g.store k
    then record g { in_flight = erase k g.in_flight }
    else record g { in_flight = insert k handling g.in_flight }
go_on g k resolved handling = record g {
  in_flight = insert k marking g.in_flight;
  effects = k ∷ g.effects;
}
go_on g k rejected handling = record g { in_flight = erase k g.in_flight }
go_on g k marked marking = record g { store = mark g.store k; in_flight = erase k g.in_flight }
go_on g k _ _ = g

unfoldable pub step : Guards → (String × ℕ) × Step → Guards
step g (k, delivered) = deliver g k
step g (k, s) = elim (lookup k g.in_flight) [ none ↦ g | some phase ↦ go_on g k s phase ]

unfoldable pub steps : Guards → List ((String × ℕ) × Step) → Guards
steps g [] = g
steps g (s ∷ ss) = steps (step g s) ss

abbrev pub new_guards : Guards
new_guards = record { store = []; in_flight = []; effects = [] }

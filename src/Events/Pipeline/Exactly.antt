-- ===== src/Events/Pipeline/Exactly.antt =====
-- Exactly one effect of each committed event, from the outbox through the inbox.
use Prim.Native.String.{String}
use oncall_backend_private.Prelude.{ℕ, ◌≡◌, Bool, List, [], pair_key, string_key, nat_key}
use oncall_backend_private.Events.Envelope.{DomainEvent}
use oncall_backend_private.Events.Outbox.{Row, save}
use oncall_backend_private.Events.Outbox.Runs.{Run, ends, after_run, after_runs}
use oncall_backend_private.Events.Inbox.{has, Guards, new_guards}
use oncall_backend_private.Events.Inbox.Once.{IsSound}
use oncall_backend_private.Events.Pipeline.{receive, IsQuiet}

abbrev IsCalm : Guards × List Bool → Type 0
IsCalm q = IsQuiet q.0 × IsSound q.0

abbrev IsReady : Guards × List Bool → Type 0
IsReady q = IsQuiet q.0 × (q.1 ≡ [])

recorded : String → Guards × List Bool → ℕ → Bool
recorded consumer q i = has q.0.store (consumer, i)

module _ {P : Type 0} (consumer : String) where
  -- The rows and the guard after the runs, and after one more run in which no handler throws.
  pub final_run : List (DomainEvent P) → List Bool → List Run → List (Row P) × (Guards × List Bool)
  final_run events outcomes runs =
      let (rows, (g, left)) =
        after_runs (receive consumer) (save [] events, (new_guards, outcomes)) runs in
      after_run (receive consumer) (rows, (g, [])) ends

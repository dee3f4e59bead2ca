-- ===== src/Workflow/Engine.antt =====
-- The engine, src/application/workflow/workflowService.js. The calls for one workflow run one after the other
-- (`_withWorkflow`), so a call is a function of the engine and of the clock's reading. The storage and the
-- scheduler are ports: what is stored is a map that a call may fail to read or write (Faults), and the
-- scheduler is the list of its pending jobs. The locks are those of Locks.Service in memory. The events that
-- are given to the publisher are kept with the latest first; metrics and logs are left out.
pub mod Calls
pub mod Registered
pub mod Keeps
pub mod Operations
pub mod Histories
pub mod Verified
pub mod Finished
pub mod Answers
pub mod Timeouts
pub mod Excluded
use Prim.Native.String.{String}
use oncall_backend_private.Prelude.{
  ℕ, zero, suc, ◌+◌, Bool, true, false, ◌&&◌, ◌||◌, not, Option, none, some, List, [], ◌∷◌, ◌++◌,
  ◌==◌, length, if◌then◌else◌, string_key, nat_key, pair_key, lookup, insert, erase,
}
use oncall_backend_private.Locks.{is_name, Lock}
use oncall_backend_private.Locks.Service.{
  Buckets, Reply, done, thrown, memory_provider, try_acquire, release_lock,
}
use oncall_backend_private.Workflow.Definition.{
  Context, Timeout, Transition, DefinitionSpec, Definition, Created, created, refused,
  DefinitionError, create_definition, is_state, is_terminal, is_failure_state, timeout_for,
  find_transition,
}
use oncall_backend_private.Workflow.Instance.{
  Status, running, suspended, is_running, is_suspended, Instance, last_entries, create_instance,
  transition_to, complete, fail, cancel, from_model,
}

pub data EventType : Type 0 where
  started transitioned finished failed cancelled timed_out : EventType

-- A pending job of the scheduler: the timeout of a workflow, with the state and the version that it was armed at.
pub record Job : Type 0 where
  pub workflow_id : String
  pub at_state : String
  pub at_version : ℕ
  pub due : ℕ

pub record Settings : Type 0 where
  pub engine_id : ℕ
  pub history_limit : ℕ
  pub engine_history_limit : ℕ
  pub lock_lease_ms : ℕ
  pub has_scheduler : Bool

pub record Published : Type 0 where
  pub type : EventType
  pub workflow_id : String
  pub state : String
  pub status : Status

-- The maps of the engine, and what its ports hold. The source keeps the definitions in one map, under the
-- texts `name@version` and `name`; here these are two maps, `by_key` under the pairs and `by_name`. They
-- agree with the one map as long as no definition is registered, and none is asked for by `start`, under
-- a name that contains `@`: in the source a definition named `a@1` takes the entry of version 1 of `a`.
pub record Engine (V : Type 0) : Type 0 where
  pub settings : Settings
  pub by_key : List ((String × ℕ) × Definition V)
  pub by_name : List (String × Definition V)
  pub stored : List (String × Instance V)
  pub timers : List (String × ℕ)
  pub jobs : List (ℕ × Job)
  pub next_job : ℕ
  pub locks : Option Buckets
  pub engine_history : List (String × EventType × ℕ)
  pub published : List Published

-- Which uses of the storage fail in a call: its read, its first write, its second.
pub record Faults : Type 0 where
  pub get_fails : Bool
  pub put_fails : Bool
  pub second_put_fails : Bool

pub data WorkflowError : Type 0 where
  id_required event_required not_running corrupt modified_concurrently lock_refused : WorkflowError
  not_found not_registered no_transition guard_rejected threw storage_failed : WorkflowError

-- The answer of a call; `ignored` is a stale timer's.
pub data Answer (V : Type 0) : Type 0 where
  ok : Instance V → Answer V
  ignored : Answer V
  error : WorkflowError → Answer V

module _ {V : Type 0} where
  -- `register` of a definition, whose name contains no `@`.
  unfoldable pub register_definition : Engine V → Definition V → Engine V
  register_definition e def = record e {
    by_key = insert (def.name, def.version) def e.by_key;
    by_name = insert def.name def e.by_name;
  }

  -- `register` of a specification.
  unfoldable pub register : Engine V → DefinitionSpec V → Engine V × Option DefinitionError
  register e spec = elim (create_definition spec) [
    | created def ↦ (register_definition e def, none)
    | refused why ↦ (e, some why)
  ]

  -- `_resolve` of a name with no `@` and, where it is given, a version. A start that carries a definition of
  -- its own is a `register` before it, and is left out of the calls.
  unfoldable pub resolve : Engine V → String → Option ℕ → Option (Definition V)
  resolve e name none = lookup name e.by_name
  resolve e name (some zero) = lookup name e.by_name
  resolve e name (some (suc v)) = lookup (name, suc v) e.by_key

  -- The definition of an instance.
  unfoldable pub definition_of : Engine V → Instance V → Option (Definition V)
  definition_of e i = elim (lookup (i.definition_name, i.definition_version) e.by_key) [
    | some def ↦ some def
    | none ↦ lookup i.definition_name e.by_name
  ]

  -- `_recordEngineHistory`, after which at most as many entries as the limit are kept, and `_emit`.
  unfoldable pub record_engine_history : Engine V → EventType → String → ℕ → Engine V
  record_engine_history e type workflow_id now = record e {
    engine_history =
        last_entries e.settings.engine_history_limit
          (e.engine_history ++ (workflow_id, type, now) ∷ []);
  }

  unfoldable pub emit : Engine V → EventType → Instance V → Engine V
  emit e type i = record e {
    published =
        record { type = type; workflow_id = i.workflow_id; state = i.state; status = i.status }
        ∷ e.published;
  }

  -- `_persist`, where the storage writes.
  unfoldable pub persist : Engine V → Instance V → Engine V
  persist e i = record e { stored = insert i.workflow_id i e.stored }

  -- `_assertNotCorrupt`: the texts may be empty.
  unfoldable pub is_corrupt : Instance V → Bool
  is_corrupt i = not (is_name i.definition_name && is_name i.state)

  -- `_cancelTimeout`.
  unfoldable pub cancel_timeout : Engine V → String → Engine V
  cancel_timeout e workflow_id = elim (lookup workflow_id e.timers) [
    | none ↦ e
    | some job ↦ record e {
      jobs = if e.settings.has_scheduler then erase job e.jobs else e.jobs;
      timers = erase workflow_id e.timers;
    }
  ]

  -- The end of `_armTimeout`: `scheduleAfter`, and the timer that is kept.
  unfoldable pub schedule_timeout : Engine V → Instance V → Timeout → ℕ → Engine V
  schedule_timeout e i to now = record e {
    jobs =
        insert e.next_job
          (record {
            workflow_id = i.workflow_id;
            at_state = i.state;
            at_version = i.version;
            due = now + to.after_ms;
          })
          e.jobs;
    next_job = suc e.next_job;
    timers = insert i.workflow_id e.next_job e.timers;
  }

  -- `_armTimeout`.
  unfoldable pub arm_timeout : Engine V → Instance V → Definition V → ℕ → Engine V
  arm_timeout e i def now =
      let idle = cancel_timeout e i.workflow_id in
      elim (timeout_for def i.state) [
        | none ↦ idle
        | some to ↦
            if e.settings.has_scheduler && is_running i.status
            then schedule_timeout idle i to now
            else idle
      ]

  -- The end of `_finalize`, on the instance in its last status.
  unfoldable pub finish : Engine V → Instance V → EventType → ℕ → Faults → Engine V × Answer V
  finish e i type now faults =
      if faults.second_put_fails
      then (e, error storage_failed)
      else (emit (record_engine_history (persist e i) type i.workflow_id now) type i, ok i)

  -- `_finalize`; the reason of a failure is its state.
  unfoldable pub finalize : Engine V → Instance V → Definition V → ℕ → Faults → Engine V × Answer V
  finalize e i def now faults =
      let idle = cancel_timeout e i.workflow_id in
      if is_failure_state def i.state
      then finish idle (fail i i.state now) failed now faults
      else finish idle (complete i now) finished now faults

  -- What follows the first write of a call that may end in a terminal state.
  unfoldable pub settle :
      Engine V → Instance V → Definition V → EventType → ℕ → Faults → Engine V × Answer V
  settle e i def type now faults =
      let told = emit (record_engine_history (persist e i) type i.workflow_id now) type i in
      let armed = arm_timeout told i def now in
      if faults.put_fails
      then (e, error storage_failed)
      else if is_terminal def i.state
      then finalize armed i def now faults
      else (armed, ok i)

  -- The instance after a transition, its history cut to the limit.
  unfoldable pub moved : Settings → Instance V → String → String → Context V → ℕ → Instance V
  moved settings i event to patch now =
      let m = transition_to i to event patch now in
      record m { history = last_entries settings.history_limit m.history }

  -- `_commit`.
  unfoldable pub commit :
      Engine V
      → Instance V
      → Definition V
      → String
      → String
      → Context V
      → ℕ
      → Faults
      → Engine V × Answer V
  commit e i def event to patch now faults =
      settle e (moved e.settings i event to patch now) def transitioned now faults

-- ===== src/Workflow/Engine/Calls.antt =====
-- The calls of the engine, src/application/workflow/workflowService.js.
use Prim.Native.String.{String}
use oncall_backend_private.Prelude.{
  ℕ, suc, Bool, true, false, ◌&&◌, ◌||◌, not, Option, none, some, List, [], ◌∷◌, ◌++◌, ◌==◌,
  if◌then◌else◌, string_key, nat_key, lookup, erase,
}
use oncall_backend_private.Locks.{is_name, Lock}
use oncall_backend_private.Locks.Service.{
  Spec, Buckets, Reply, done, thrown, memory_provider, try_acquire, release_lock,
}
use oncall_backend_private.Workflow.Definition.{
  Context, Transition, Definition, is_given, is_state, timeout_for, find_transition,
}
use oncall_backend_private.Workflow.Instance.{
  is_running, is_suspended, Instance, Entry, create_instance, cancel, from_model,
}
use oncall_backend_private.Workflow.Engine.{
  started, timed_out, cancelled, Job, Settings, Engine, Faults, id_required, event_required,
  not_running, corrupt, modified_concurrently, lock_refused, not_found, not_registered,
  no_transition, guard_rejected, threw, storage_failed, Answer, ok, ignored, error, resolve,
  definition_of, record_engine_history, emit, persist, is_corrupt, cancel_timeout, arm_timeout,
  settle, commit,
}

-- What is asked of the locks for a workflow.
unfoldable pub lock_spec : Settings → String → Spec
lock_spec settings workflow_id = record {
  namespace = "workflow";
  lock_id = workflow_id;
  owner_id = some settings.engine_id;
  lease_ms = some settings.lock_lease_ms;
  wait_ms = none;
  metadata = [];
}

module _ {V : Type 0} where
  abbrev with_locks : Engine V → Buckets → Engine V
  with_locks e s = record e { locks = some s }

  -- `finally`: the lock is released whatever the call answered.
  unfoldable pub released :
      Settings → Buckets → String → ℕ → Engine V × Answer V → Engine V × Answer V
  released settings s workflow_id now (e, answer) =
      (with_locks e (release_lock s (lock_spec settings workflow_id) now).0, answer)

  -- `_guarded` on the reply of the lock.
  unfoldable pub on_lock :
      Engine V
      → String
      → ℕ
      → (Engine V → Engine V × Answer V)
      → Buckets × Reply (Option Lock)
      → Engine V × Answer V
  on_lock e workflow_id now f (s, done (some l)) =
      released e.settings s workflow_id now (f (with_locks e s))
  on_lock e workflow_id now f (s, done none) = (with_locks e s, error modified_concurrently)
  on_lock e workflow_id now f (s, thrown why) = (with_locks e s, error lock_refused)

  -- `_guarded`.
  unfoldable pub guarded :
      Engine V → String → ℕ → (Engine V → Engine V × Answer V) → Engine V × Answer V
  guarded e workflow_id now f = elim e.locks [
    | none ↦ f e
    | some s ↦ on_lock e workflow_id now f (try_acquire s (lock_spec e.settings workflow_id) now)
  ]

  -- `_load`.
  unfoldable pub load :
      Engine V
      → String
      → ℕ
      → Faults
      → (Instance V → Definition V → Engine V × Answer V)
      → Engine V × Answer V
  load e workflow_id now faults f =
      if faults.get_fails then (e, error storage_failed) else elim (lookup workflow_id e.stored) [
        | none ↦ (e, error not_found)
        | some model ↦
            if is_corrupt model
            then (e, error corrupt)
            else elim (definition_of e (from_model model now)) [
              | none ↦ (e, error not_registered)
              | some def ↦ f (from_model model now) def
            ]
      ]

  -- `start` of a registered definition.
  unfoldable pub start :
      Engine V → String → Option ℕ → String → Context V → ℕ → Faults → Engine V × Answer V
  start e name version workflow_id input now faults = elim (resolve e name version) [
    | none ↦ (e, error not_registered)
    | some def ↦ guarded e workflow_id now (λ g.
        settle g (create_instance workflow_id def.name def.version def.initial input now) def
          started now faults)
  ]

  -- The answer of an optional guard and of an optional action; none where it throws.
  unfoldable pub guard_answer : Transition V → Context V → V → Option Bool
  guard_answer t context payload = elim t.guard [ none ↦ some true | some f ↦ f context payload ]

  unfoldable pub action_patch : Transition V → Context V → V → Option (Context V)
  action_patch t context payload = elim t.action [ none ↦ some [] | some f ↦ f context payload ]

  -- `signal` on a transition.
  unfoldable pub take_transition :
      Engine V
      → Instance V
      → Definition V
      → Transition V
      → String
      → V
      → ℕ
      → Faults
      → Engine V × Answer V
  take_transition e i def t event payload now faults = elim (guard_answer t i.context payload) [
    | none ↦ (e, error threw)
    | some false ↦ (e, error guard_rejected)
    | some true ↦ elim (action_patch t i.context payload) [
      | none ↦ (e, error threw)
      | some patch ↦ commit e i def event t.to patch now faults
    ]
  ]

  -- `signal` on the loaded workflow.
  unfoldable pub signal_loaded :
      Engine V → String → V → ℕ → Faults → Instance V → Definition V → Engine V × Answer V
  signal_loaded e event payload now faults i def =
      if not (is_running i.status)
      then (e, error not_running)
      else elim (find_transition def i.state event) [
        | none ↦ (e, error no_transition)
        | some t ↦ take_transition e i def t event payload now faults
      ]

  unfoldable pub signal : Engine V → String → String → V → ℕ → Faults → Engine V × Answer V
  signal e workflow_id event payload now faults =
      if not (is_name workflow_id)
      then (e, error id_required)
      else if not (is_name event)
      then (e, error event_required)
      else guarded e workflow_id now
          (λ g. load g workflow_id now faults (signal_loaded g event payload now faults))

  -- `cancel` on the loaded workflow.
  unfoldable pub cancel_loaded :
      Engine V → ℕ → Faults → Instance V → Definition V → Engine V × Answer V
  cancel_loaded e now faults i def =
      let stopped = cancel i now in
      let idle = cancel_timeout e i.workflow_id in
      if not (is_running i.status) && not (is_suspended i.status)
      then (e, ok i)
      else if faults.put_fails
      then (idle, error storage_failed)
      else (
        emit (record_engine_history (persist idle stopped) cancelled i.workflow_id now) cancelled
            stopped,
        ok stopped,
      )

  unfoldable pub cancel_workflow : Engine V → String → ℕ → Faults → Engine V × Answer V
  cancel_workflow e workflow_id now faults =
      guarded e workflow_id now (λ g. load g workflow_id now faults (cancel_loaded g now faults))

  -- Whether a timer is stale.
  unfoldable pub is_stale : Job → Instance V → Bool
  is_stale job i =
      not (is_running i.status)
      || (not (string_key.same i.state job.at_state) || not (i.version == job.at_version))

  -- `_onTimeout` on the loaded workflow.
  unfoldable pub timeout_loaded :
      Engine V → Job → ℕ → Faults → Instance V → Definition V → Engine V × Answer V
  timeout_loaded e job now faults i def =
      if is_stale job i then (e, ignored) else elim (timeout_for def i.state) [
        | none ↦ (e, ignored)
        | some to ↦ commit (emit e timed_out i) i def "__timeout__" to.to [] now faults
      ]

  -- The scheduler runs a pending job, which is `_onTimeout`.
  unfoldable pub fire : Engine V → ℕ → ℕ → Faults → Engine V × Answer V
  fire e id now faults = elim (lookup id e.jobs) [
    | none ↦ (e, ignored)
    | some job ↦
        guarded (record e { jobs = erase id e.jobs }) job.workflow_id now
          (λ g. load g job.workflow_id now faults (timeout_loaded g job now faults))
  ]

  -- One record in the loop of `recover`.
  unfoldable pub recover_one : Engine V → ℕ → Instance V → Engine V
  recover_one e now model =
      if is_corrupt model
      then e
      else if not (is_running model.status)
      then e
      else elim (definition_of e model) [
        | none ↦ e
        | some def ↦
            if is_given (timeout_for def model.state)
            then arm_timeout e (from_model model now) def now
            else e
      ]

  unfoldable pub recover_all : Engine V → ℕ → List (String × Instance V) → Engine V
  recover_all e now [] = e
  recover_all e now ((id, model) ∷ rest) = recover_all (recover_one e now model) now rest

  -- `recover`, where the storage lists its records.
  unfoldable pub recover : Engine V → ℕ → Faults → Engine V
  recover e now faults = if faults.get_fails then e else recover_all e now e.stored

pub data Issue : Type 0 where
  missing corrupt_record unregistered undeclared_state mismatch : Issue
  discontinuity : ℕ → Issue

-- The loop over the history from its second entry, with the state that the entry before led to.
unfoldable pub gaps : ℕ → String → List Entry → List Issue
gaps n last [] = []
gaps n last (h ∷ hs) =
    let rest = gaps (suc n) h.to hs in
    if string_key.same h.from last then rest else discontinuity n ∷ rest

unfoldable pub discontinuities : List Entry → List Issue
discontinuities [] = []
discontinuities (h ∷ hs) = gaps 1 h.to hs

unfoldable pub last_to : String → List Entry → String
last_to state [] = state
last_to state (h ∷ hs) = last_to h.to hs

module _ {V : Type 0} where
  -- `verifyWorkflow`, where the storage answers.
  unfoldable pub verify_workflow : Engine V → String → List Issue
  verify_workflow e workflow_id = elim (lookup workflow_id e.stored) [
    | none ↦ missing ∷ []
    | some model ↦
        if is_corrupt model
        then corrupt_record ∷ []
        else elim (definition_of e model) as (λ _. List Issue) [
          | none ↦ unregistered ∷ []
          | some def ↦ if is_state def model.state then [] else undeclared_state ∷ []
        ]
          ++ (discontinuities model.history
              ++ (if is_running model.status
                    && not (string_key.same (last_to model.state model.history) model.state)
                  then mismatch ∷ []
                  else []))
  ]

-- ===== src/Workflow/Engine/Timeouts.antt =====
-- The timeouts of src/application/workflow/workflowService.js.
use Prim.Native.String.{String}
use oncall_backend_private.Prelude.{
  ℕ, zero, suc, ◌+◌, ◌≡◌, refl, sym, ap, ◌∙◌, subst, true, false, ◌==◌, ==_refl, none, some, [],
  arith, string_key, nat_key, pair_key, lookup, insert, erase, lookup-insert, same_refl,
}
use oncall_backend_private.Locks.Service.{memory_provider}
use oncall_backend_private.Workflow.Definition.{Timeout, Definition, timeout_for}
use oncall_backend_private.Workflow.Instance.{
  is_running, Instance, nonzero_or, transition_to, from_model,
}
use oncall_backend_private.Workflow.Engine.{
  EventType, Job, Engine, ok, definition_of, record_engine_history, emit, persist, is_corrupt,
  cancel_timeout, schedule_timeout, arm_timeout, settle, moved, commit,
}
use oncall_backend_private.Workflow.Engine.Calls.{
  guarded, load, signal, is_stale, timeout_loaded, fire,
}
use oncall_backend_private.Workflow.Engine.Keeps.{arm_timeout-IsSame}
use oncall_backend_private.Workflow.Engine.Answers.{
  no_faults, IsAnswered, settle-IsAnswered, settle-running, signal-load, signal_loaded-settle,
}

nonzero_again : (n : ℕ) → nonzero_or (nonzero_or n 1) 1 ≡ nonzero_or n 1
nonzero_again zero = refl
nonzero_again (suc n) = refl

nonzero_next : (n : ℕ) → nonzero_or (nonzero_or n 1 + 1) 1 ≡ nonzero_or n 1 + 1
nonzero_next zero = refl
nonzero_next (suc n) = ground arith

module _ {V : Type 0} where
  definition_of-same :
      (e g : Engine V) (i : Instance V)
      → e.by_key ≡ g.by_key
      → e.by_name ≡ g.by_name
      → definition_of e i ≡ definition_of g i
  unfolding definition_of
  definition_of-same e g i k n = ground (
    arith,
    ap (lookup (i.definition_name, i.definition_version)) k,
    ap (lookup i.definition_name) n,
  )

  timeout_loaded-IsAnswered :
      (e : Engine V) (i : Instance V) (def : Definition V) (job : Job) (to : Timeout) (now : ℕ)
      → is_stale job i ≡ false
      → timeout_for def i.state ≡ some to
      → IsAnswered i.workflow_id to.to (timeout_loaded e job now no_faults i def)
  unfolding timeout_loaded commit moved transition_to
  timeout_loaded-IsAnswered e i def job to now fresh h =
      let told = emit e EventType.timed_out i in
      let after = moved told.settings i "__timeout__" to.to [] now in
      let at : settle told after def EventType.transitioned now no_faults
          ≡ timeout_loaded e job now no_faults i def =
        ground (arith, fresh, h) in
      subst (IsAnswered i.workflow_id to.to) at
        (settle-IsAnswered told after def EventType.transitioned now)

  -- A job that is armed for the state and version in which the workflow is stored does its transition.
  fire-IsAnswered :
      (e : Engine V) (i : Instance V) (def : Definition V) (n due : ℕ) (to : Timeout) (now : ℕ)
      → e.locks ≡ none
      → lookup n e.jobs
        ≡ some (record {
          workflow_id = i.workflow_id;
          at_state = i.state;
          at_version = i.version;
          due = due;
        })
      → lookup i.workflow_id e.stored ≡ some i
      → is_corrupt i ≡ false
      → definition_of e (from_model i now) ≡ some def
      → is_running i.status ≡ true
      → nonzero_or i.version 1 ≡ i.version
      → timeout_for def i.state ≡ some to
      → IsAnswered i.workflow_id to.to (fire e n now no_faults)
  unfolding fire guarded load from_model is_stale
  fire-IsAnswered e i def n due to now free j stored whole d r v h =
      let job : Job = record {
        workflow_id = i.workflow_id;
        at_state = i.state;
        at_version = i.version;
        due = due;
      } in
      let fired : Engine V = record e { jobs = erase n e.jobs } in
      let model = from_model i now in
      let fresh : is_stale job model ≡ false = ground (
        arith,
        r,
        same_refl i.state,
        v,
        subst (λ x. (x == i.version) ≡ true) (sym v) (==_refl i.version),
      ) in
      let same : definition_of fired model ≡ some def =
        sym (definition_of-same e fired model refl refl) ∙ d in
      let at : timeout_loaded fired job now no_faults model def ≡ fire e n now no_faults =
        ground (arith, free, j, stored, whole, same) in
      subst (IsAnswered i.workflow_id to.to) at
        (timeout_loaded-IsAnswered fired model def job to now fresh h)

  cancel_timeout-kept :
      (e : Engine V) (id : String)
      → ((cancel_timeout e id).next_job ≡ e.next_job)
        × ((cancel_timeout e id).settings ≡ e.settings)
        × ((cancel_timeout e id).locks ≡ e.locks)
  unfolding cancel_timeout
  cancel_timeout-kept e id = ground arith

  arm_timeout-job :
      (e : Engine V) (i : Instance V) (def : Definition V) (to : Timeout) (now : ℕ)
      → e.settings.has_scheduler ≡ true
      → is_running i.status ≡ true
      → timeout_for def i.state ≡ some to
      → let g = arm_timeout e i def now in
        (lookup i.workflow_id g.timers ≡ some e.next_job)
        × (lookup e.next_job g.jobs
            ≡ some (record {
              workflow_id = i.workflow_id;
              at_state = i.state;
              at_version = i.version;
              due = now + to.after_ms;
            }))
        × (g.locks ≡ e.locks)
  unfolding arm_timeout schedule_timeout cancel_timeout
  arm_timeout-job e i def to now on r h =
      let idle = cancel_timeout e i.workflow_id in
      let at : arm_timeout e i def now ≡ schedule_timeout idle i to now =
        ground (arith, h, r, (cancel_timeout-kept e i.workflow_id).1, on) in
      let next : idle.next_job ≡ e.next_job = (cancel_timeout-kept e i.workflow_id).0 in
      let job : Job = record {
        workflow_id = i.workflow_id;
        at_state = i.state;
        at_version = i.version;
        due = now + to.after_ms;
      } in
      subst
        (λ (g : Engine V).
          (lookup i.workflow_id g.timers ≡ some e.next_job)
          × (lookup e.next_job g.jobs ≡ some job)
          × (g.locks ≡ e.locks))
        (sym at)
        (
          ap (λ n. lookup i.workflow_id (insert i.workflow_id n idle.timers)) next
              ∙ lookup-insert i.workflow_id e.next_job idle.timers,
          ap (λ n. lookup e.next_job (insert n job idle.jobs)) next
              ∙ lookup-insert e.next_job job idle.jobs,
          (cancel_timeout-kept e i.workflow_id).2,
        )

  definition_of-model :
      (e : Engine V) (i : Instance V) (now : ℕ)
      → nonzero_or i.definition_version 1 ≡ i.definition_version
      → definition_of e (from_model i now) ≡ definition_of e i
  unfolding definition_of from_model
  definition_of-model e i now h = ground (arith, ap (λ n. lookup (i.definition_name, n) e.by_key) h)

  -- The timer of a workflow that is stored running fires.
  armed-fires :
      (e : Engine V) (m : Instance V) (def : Definition V) (to : Timeout) (now later : ℕ)
      → e.locks ≡ none
      → e.settings.has_scheduler ≡ true
      → lookup m.workflow_id e.stored ≡ some m
      → definition_of e m ≡ some def
      → is_corrupt m ≡ false
      → is_running m.status ≡ true
      → timeout_for def m.state ≡ some to
      → nonzero_or m.version 1 ≡ m.version
      → nonzero_or m.definition_version 1 ≡ m.definition_version
      → let g = arm_timeout e m def now in
        (job : ℕ) × (lookup m.workflow_id g.timers ≡ some job)
        × IsAnswered m.workflow_id to.to (fire g job later no_faults)
  armed-fires e m def to now later free on stored d whole r t v w =
      let g = arm_timeout e m def now in
      let (timer, job, locks) = arm_timeout-job e m def to now on r t in
      let (k, n, s, same) = arm_timeout-IsSame e m def now in
      (
        e.next_job,
        timer,
        fire-IsAnswered g m def e.next_job (now + to.after_ms) to later (locks ∙ free) job
            (ap (lookup m.workflow_id) (sym same) ∙ stored) whole
            (definition_of-model g m later w ∙ (sym (definition_of-same e g m k n) ∙ d)) r v t,
      )

  -- In an engine with a scheduler and no lock service, a signal in which no storage fails, and which leaves
  -- the workflow running, its record whole, in a state with a timeout of its registered definition, arms
  -- its timer, and when that job runs next, with no storage that fails, the workflow makes the transition
  -- of the timeout.
  pub signal-arms :
      (e g : Engine V) (id event : String) (payload : V) (now later : ℕ) (m : Instance V)
      (def : Definition V) (to : Timeout)
      → e.locks ≡ none
      → e.settings.has_scheduler ≡ true
      → signal e id event payload now no_faults ≡ (g, ok m)
      → definition_of g m ≡ some def
      → is_corrupt m ≡ false
      → is_running m.status ≡ true
      → timeout_for def m.state ≡ some to
      → (job : ℕ) × (lookup m.workflow_id g.timers ≡ some job)
        × IsAnswered m.workflow_id to.to (fire g job later no_faults)
  unfolding definition_of emit record_engine_history persist moved transition_to from_model
  signal-arms e g id event payload now later m def to free on h d whole r t =
      let (i, own, d1, h1) = signal-load e g id event payload now m free h in
      let (next, patch, h2) =
        signal_loaded-settle e g event payload now (from_model i now) m own h1 in
      let after = moved e.settings (from_model i now) event next patch now in
      let told : Engine V =
        emit (record_engine_history (persist e after) EventType.transitioned after.workflow_id now)
          EventType.transitioned after in
      let (same, armed) = settle-running e g after m own EventType.transitioned now h2 r in
      let (k, n, _, _) = arm_timeout-IsSame told after own now in
      let found : definition_of g m ≡ some own =
        ap (definition_of g) same
        ∙ (ap (λ x. definition_of x after) armed
            ∙ (sym (definition_of-same told (arm_timeout told after own now) after k n) ∙ d1)) in
      let one : own ≡ def = ground (arith, found, d) in
      let fires =
        armed-fires told after own to now later free on
          (lookup-insert after.workflow_id after e.stored) d1
          (subst (λ x. is_corrupt x ≡ false) same whole)
          (subst (λ (x : Instance V). is_running x.status ≡ true) same r)
          (subst (λ x. timeout_for x after.state ≡ some to) (sym one)
            (subst (λ (x : Instance V). timeout_for def x.state ≡ some to) same t))
          (nonzero_next i.version) (nonzero_again i.definition_version) in
      subst
        (λ (x : Instance V).
          (job : ℕ) × (lookup x.workflow_id g.timers ≡ some job)
          × IsAnswered x.workflow_id to.to (fire g job later no_faults))
        (sym same)
        (subst
          (λ (x : Engine V).
            (job : ℕ) × (lookup after.workflow_id x.timers ≡ some job)
            × IsAnswered after.workflow_id to.to (fire x job later no_faults))
          (sym armed) fires)

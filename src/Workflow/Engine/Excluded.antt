-- ===== src/Workflow/Engine/Excluded.antt =====
-- What src/application/workflow/workflowService.js does while another engine holds a workflow's lock.
use Prim.Native.String.{String}
use oncall_backend_private.Prelude.{
  ℕ, ◌+◌, ◌<◌, ◌≡◌, refl, sym, subst, true, false, Option, none, some, [], arith, string_key,
  nat_key, pair_key, lookup, erase,
}
use oncall_backend_private.Locks.{is_name, Lock}
use oncall_backend_private.Locks.Service.{
  Buckets, Spec, done, memory_provider, try_acquire, is_owner,
}
use oncall_backend_private.Locks.Calls.{serve_all}
use oncall_backend_private.Locks.Acquisition.{acquired_excludes}
use oncall_backend_private.Workflow.Definition.{Context, Definition}
use oncall_backend_private.Workflow.Instance.{create_instance}
use oncall_backend_private.Workflow.Engine.{
  EventType, Job, Engine, Faults, Answer, error, modified_concurrently, resolve, settle,
}
use oncall_backend_private.Workflow.Engine.Calls.{
  lock_spec, on_lock, guarded, load, signal_loaded, start, signal, cancel_workflow, timeout_loaded,
  cancel_loaded, fire,
}

module _ {V : Type 0} where
  on_lock-refused :
      (e : Engine V) (id : String) (now : ℕ) (f : Engine V → Engine V × Answer V) (t : Buckets)
      → e.locks ≡ some t
      → try_acquire t (lock_spec e.settings id) now ≡ (t, done none)
      → guarded e id now f ≡ (e, error modified_concurrently)
  unfolding guarded on_lock
  on_lock-refused e id now f t l h = ground (arith, l, h)

  -- While another engine holds the lock of a workflow, from when it acquired it to the end of the lease, a signal,
  -- a cancellation, a start under the id and a timer of the workflow are refused and change nothing, but that the
  -- job of the timer is gone.
  pub lock_excludes :
      (e : Engine V) (s t : Buckets) (spec : Spec) (other now later job : ℕ) (l : Lock)
      (id event name : String) (version : Option ℕ) (payload : V) (input : Context V)
      (def : Definition V) (due : Job) (faults : Faults)
      → spec.owner_id ≡ some other
      → (spec.namespace ≡ "workflow") × (spec.lock_id ≡ id)
      → try_acquire s spec now ≡ (t, done (some l))
      → later < now + l.lease_ms
      → e.locks ≡ some t
      → is_owner (some other) (some e.settings.engine_id) ≡ false
      → is_name id ≡ true
      → is_name event ≡ true
      → resolve e name version ≡ some def
      → (lookup job e.jobs ≡ some due) × (due.workflow_id ≡ id)
      → (signal e id event payload later faults ≡ (e, error modified_concurrently))
        × (cancel_workflow e id later faults ≡ (e, error modified_concurrently))
        × (start e name version id input later faults ≡ (e, error modified_concurrently))
        × (fire e job later faults
            ≡ (record e { jobs = erase job e.jobs }, error modified_concurrently))
  unfolding signal cancel_workflow start fire lock_spec serve_all
  lock_excludes e s t spec other now later job l id event name version payload input def due faults
        o at h early held ne ni nv r j =
      let (_, _, refused, _, _) =
        acquired_excludes s t spec (lock_spec e.settings id) other e.settings.engine_id now later l
          [] o h tt (sym at.0, sym at.1) refl ne early in
      let fired : Engine V = record e { jobs = erase job e.jobs } in
      let at_fire : try_acquire t (lock_spec fired.settings due.workflow_id) later
          ≡ (t, done none) =
        subst (λ x. try_acquire t (lock_spec e.settings x) later ≡ (t, done none)) (sym j.1)
          refused in
      (
        ground (
          arith,
          ni,
          nv,
          on_lock-refused e id later
              (λ g. load g id later faults (signal_loaded g event payload later faults)) t held
              refused,
        ),
        on_lock-refused e id later (λ g. load g id later faults (cancel_loaded g later faults)) t
            held refused,
        ground (
          arith,
          r,
          on_lock-refused e id later
              (λ g.
                settle g (create_instance id def.name def.version def.initial input later) def
                  EventType.started later faults)
              t held refused,
        ),
        ground (
          arith,
          j.0,
          on_lock-refused fired due.workflow_id later
              (λ g. load g due.workflow_id later faults (timeout_loaded g due later faults)) t held
              at_fire,
        ),
      )

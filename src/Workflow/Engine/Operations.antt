-- ===== src/Workflow/Engine/Operations.antt =====
-- How whole calls of src/application/workflow/workflowService.js keep a property of the registry, the settings
-- and the storage: it has to be kept by each write.
use Prim.Native.String.{String}
use oncall_backend_private.Prelude.{
  ℕ, ◌≡◌, refl, subst, true, false, ◌&&◌, ◌||◌, Option, some, List, [], ◌∷◌, arith, string_key,
  nat_key, pair_key, lookup, erase, Bool-cases, Option-cases, inl, inr, ◌⊎◌,
}
use oncall_backend_private.Locks.{is_name}
use oncall_backend_private.Locks.Service.{memory_provider}
use oncall_backend_private.Workflow.Definition.{
  Context, Timeout, Transition, Definition, timeout_for, find_transition,
}
use oncall_backend_private.Workflow.Instance.{
  is_running, is_suspended, Instance, create_instance, complete, fail, cancel, from_model,
}
use oncall_backend_private.Workflow.Engine.{
  transitioned, started, timed_out, Job, Engine, Faults, Answer, resolve, definition_of,
  record_engine_history, emit, persist, cancel_timeout, settle, moved, commit,
}
use oncall_backend_private.Workflow.Engine.Calls.{
  guarded, load, start, guard_answer, action_patch, take_transition, signal_loaded, signal,
  cancel_loaded, cancel_workflow, is_stale, timeout_loaded, fire, recover_all, recover,
}
use oncall_backend_private.Workflow.Engine.Keeps.{
  IsSame, cancel_timeout-IsSame, emit-IsSame, recover_all-IsSame, guarded-keeps, load-keeps,
  settle-keeps,
}

-- Where a transition for the event, or a timeout, leads.
abbrev pub IsTarget : {V : Type 0} → Definition V → String → String → Type 0
IsTarget {V} def state to =
    ((event : String) × (t : Transition V) × (find_transition def state event ≡ some t)
      × (t.to ≡ to))
    ⊎ ((o : Timeout) × (timeout_for def state ≡ some o) × (o.to ≡ to))

module _ {V : Type 0} (P : Engine V → Type 0) (same : (e g : Engine V) → IsSame e g → P e → P g)
    (Q : Instance V → Type 0)
    (store : (e : Engine V) (i : Instance V) → Q i → P e → P (persist e i))
    (over : (i : Instance V) (now : ℕ) → Q i → Q (complete i now) × Q (fail i i.state now)) where
  pub start-keeps :
      (e : Engine V) (name : String) (version : Option ℕ) (id : String) (input : Context V)
      (now : ℕ) (faults : Faults)
      → P e
      → ((def : Definition V)
          → resolve e name version ≡ some def
          → Q (create_instance id def.name def.version def.initial input now))
      → P (start e name version id input now faults).0
  unfolding start
  start-keeps e name version id input now faults p h =
      elim (Option-cases (resolve e name version)) [
        | inl n ↦
            let at : e ≡ (start e name version id input now faults).0 = ground (arith, n) in
            subst P at p
        | inr (def, n) ↦
            let body : Engine V → Engine V × Answer V = λ g.
              settle g (create_instance id def.name def.version def.initial input now) def started
                now faults in
            let at : (guarded e id now body).0 ≡ (start e name version id input now faults).0 =
              ground (arith, n) in
            subst P at (
              guarded-keeps P same e id now body p (λ g s.
                settle-keeps P same Q store over g _ def started now faults (h def n)
                  (same e g s p)))
      ]

module _ {V : Type 0} (P : Engine V → Type 0) (same : (e g : Engine V) → IsSame e g → P e → P g)
    (Q : Instance V → Type 0)
    (store : (e : Engine V) (i : Instance V) → Q i → P e → P (persist e i))
    (over : (i : Instance V) (now : ℕ) → Q i → Q (complete i now) × Q (fail i i.state now))
    (moves : (e : Engine V) (id : String) (i : Instance V) (def : Definition V) (event to : String)
        (patch : Context V) (now : ℕ)
      → P e
      → lookup id e.stored ≡ some i
      → definition_of e (from_model i now) ≡ some def
      → is_running i.status ≡ true
      → IsTarget def i.state to
      → Q (moved e.settings (from_model i now) event to patch now)) where
  signal_loaded-keeps :
      (e : Engine V) (id event : String) (payload : V) (now : ℕ) (faults : Faults) (i : Instance V)
      (def : Definition V)
      → P e
      → lookup id e.stored ≡ some i
      → definition_of e (from_model i now) ≡ some def
      → P (signal_loaded e event payload now faults (from_model i now) def).0
  unfolding signal_loaded take_transition commit from_model
  signal_loaded-keeps e id event payload now faults i def p h d =
      let model = from_model i now in
      let after = (signal_loaded e event payload now faults model def).0 in
      elim (Bool-cases (is_running i.status)) [
        | inr b ↦ let at : e ≡ after = ground (arith, b) in subst P at p
        | inl b ↦ elim (Option-cases (find_transition def i.state event)) [
          | inl n ↦ let at : e ≡ after = ground (arith, b, n) in subst P at p
          | inr (t, n) ↦ elim (Option-cases (guard_answer t i.context payload)) [
            | inl g ↦ let at : e ≡ after = ground (arith, b, n, g) in subst P at p
            | inr (true, g) ↦ elim (Option-cases (action_patch t i.context payload)) [
              | inl a ↦ let at : e ≡ after = ground (arith, b, n, g, a) in subst P at p
              | inr (patch, a) ↦
                  let at : (commit e model def event t.to patch now faults).0 ≡ after =
                    ground (arith, b, n, g, a) in
                  subst P at (
                    settle-keeps P same Q store over e _ def transitioned now faults
                      (moves e id i def event t.to patch now p h d b (inl (event, t, n, refl))) p)
            ]
            | inr (false, g) ↦ let at : e ≡ after = ground (arith, b, n, g) in subst P at p
          ]
        ]
      ]

  pub signal-keeps :
      (e : Engine V) (id event : String) (payload : V) (now : ℕ) (faults : Faults)
      → P e
      → P (signal e id event payload now faults).0
  unfolding signal
  signal-keeps e id event payload now faults p =
      let body : Engine V → Engine V × Answer V =
        λ g. load g id now faults (signal_loaded g event payload now faults) in
      let after = (signal e id event payload now faults).0 in
      elim (Bool-cases (is_name id && is_name event)) [
        | inr n ↦ let at : e ≡ after = ground (arith, n) in subst P at p
        | inl n ↦
            let at : (guarded e id now body).0 ≡ after = ground (arith, n) in
            subst P at (
              guarded-keeps P same e id now body p (λ g s.
                load-keeps P same g id now faults (signal_loaded g event payload now faults)
                  (same e g s p)
                  (λ i def.
                    signal_loaded-keeps g id event payload now faults i def (same e g s p))))
      ]

  timeout_loaded-keeps :
      (e : Engine V) (job : Job) (now : ℕ) (faults : Faults) (i : Instance V) (def : Definition V)
      → P e
      → lookup job.workflow_id e.stored ≡ some i
      → definition_of e (from_model i now) ≡ some def
      → P (timeout_loaded e job now faults (from_model i now) def).0
  unfolding timeout_loaded commit from_model is_stale emit
  timeout_loaded-keeps e job now faults i def p h d =
      let model = from_model i now in
      let after = (timeout_loaded e job now faults model def).0 in
      elim (Bool-cases (is_stale job model)) [
        | inl b ↦ let at : e ≡ after = ground (arith, b) in subst P at p
        | inr b ↦ elim (Option-cases (timeout_for def i.state)) [
          | inl n ↦ let at : e ≡ after = ground (arith, b, n) in subst P at p
          | inr (o, n) ↦
              let told = emit e timed_out model in
              let kept = same e told (emit-IsSame e timed_out model) p in
              let at : (commit told model def "__timeout__" o.to [] now faults).0 ≡ after =
                ground (arith, b, n) in
              subst P at (
                settle-keeps P same Q store over told _ def transitioned now faults
                  (moves e job.workflow_id i def "__timeout__" o.to [] now p h d (ground (arith, b))
                    (inr (o, n, refl)))
                  kept)
        ]
      ]

  pub fire-keeps : (e : Engine V) (id now : ℕ) (faults : Faults) → P e → P (fire e id now faults).0
  unfolding fire
  fire-keeps e id now faults p = elim (Option-cases (lookup id e.jobs)) [
    | inl n ↦ let at : e ≡ (fire e id now faults).0 = ground (arith, n) in subst P at p
    | inr (job, n) ↦
        let body : Engine V → Engine V × Answer V =
          λ g. load g job.workflow_id now faults (timeout_loaded g job now faults) in
        let fired : Engine V = record e { jobs = erase id e.jobs } in
        let at : (guarded fired job.workflow_id now body).0 ≡ (fire e id now faults).0 =
          ground (arith, n) in
        let kept = same e fired (refl, refl, refl, refl) p in
        subst P at (
          guarded-keeps P same fired job.workflow_id now body kept (λ g s.
            load-keeps P same g job.workflow_id now faults (timeout_loaded g job now faults)
              (same fired g s kept)
              (λ i def. timeout_loaded-keeps g job now faults i def (same fired g s kept))))
  ]

module _ {V : Type 0} (P : Engine V → Type 0) (same : (e g : Engine V) → IsSame e g → P e → P g)
    (Q : Instance V → Type 0)
    (store : (e : Engine V) (i : Instance V) → Q i → P e → P (persist e i))
    (stops : (e : Engine V) (id : String) (i : Instance V) (now : ℕ)
      → P e
      → lookup id e.stored ≡ some i
      → (is_running i.status || is_suspended i.status) ≡ true
      → Q (cancel (from_model i now) now)) where
  cancel_loaded-keeps :
      (e : Engine V) (id : String) (now : ℕ) (faults : Faults) (i : Instance V) (def : Definition V)
      → P e
      → lookup id e.stored ≡ some i
      → P (cancel_loaded e now faults (from_model i now) def).0
  unfolding cancel_loaded emit record_engine_history from_model
  cancel_loaded-keeps e id now faults i def p h =
      let model = from_model i now in
      let idle = cancel_timeout e i.workflow_id in
      let kept = same e idle (cancel_timeout-IsSame e i.workflow_id) p in
      let after = (cancel_loaded e now faults model def).0 in
      elim (Bool-cases (is_running i.status || is_suspended i.status)) [
        | inr b ↦ let at : e ≡ after = ground (arith, b) in subst P at p
        | inl b ↦ elim (Bool-cases faults.put_fails) [
          | inl f ↦ let at : idle ≡ after = ground (arith, b, f) in subst P at kept
          | inr f ↦
              same (persist idle (cancel model now)) after (ground (arith, b, f))
                (store idle (cancel model now) (stops e id i now p h b) kept)
        ]
      ]

  pub cancel-keeps :
      (e : Engine V) (id : String) (now : ℕ) (faults : Faults)
      → P e
      → P (cancel_workflow e id now faults).0
  unfolding cancel_workflow
  cancel-keeps e id now faults p =
      guarded-keeps P same e id now (λ g. load g id now faults (cancel_loaded g now faults)) p
        (λ g s.
          load-keeps P same g id now faults (cancel_loaded g now faults) (same e g s p)
            (λ i def h d. cancel_loaded-keeps g id now faults i def (same e g s p) h))

module _ {V : Type 0} (P : Engine V → Type 0)
    (same : (e g : Engine V) → IsSame e g → P e → P g) where
  pub recover-keeps : (e : Engine V) (now : ℕ) (faults : Faults) → P e → P (recover e now faults)
  unfolding recover
  recover-keeps e now faults p = elim (Bool-cases faults.get_fails) [
    | inl b ↦ let at : e ≡ recover e now faults = ground (arith, b) in subst P at p
    | inr b ↦
        let at : recover_all e now e.stored ≡ recover e now faults = ground (arith, b) in
        subst P at (same e (recover_all e now e.stored) (recover_all-IsSame e now e.stored) p)
  ]

-- The calls, and the runs of the scheduler's jobs and of `recover`.
pub data Operation (V : Type 0) : Type 0 where
  starts : String → Option ℕ → String → Context V → Operation V
  signals : String → String → V → Operation V
  cancels : String → Operation V
  fires : ℕ → Operation V
  recovers : Operation V

module _ {V : Type 0} where
  unfoldable pub operate : Engine V → Operation V × ℕ × Faults → Engine V
  operate e (starts name version id input, now, faults) =
      (start e name version id input now faults).0
  operate e (signals id event payload, now, faults) = (signal e id event payload now faults).0
  operate e (cancels id, now, faults) = (cancel_workflow e id now faults).0
  operate e (fires job, now, faults) = (fire e job now faults).0
  operate e (recovers, now, faults) = recover e now faults

  unfoldable pub operate_all : Engine V → List (Operation V × ℕ × Faults) → Engine V
  operate_all e [] = e
  operate_all e (o ∷ os) = operate_all (operate e o) os

-- ===== src/Workflow/Engine/Answers.antt =====
-- What the calls of src/application/workflow/workflowService.js answer where the storage does not fail.
use Prim.Native.String.{String}
use oncall_backend_private.Prelude.{
  ℕ, ◌≡◌, refl, sym, ap, ◌∙◌, subst, true, false, ◌&&◌, none, some, arith, string_key, nat_key,
  pair_key, lookup, lookup-insert, Bool-cases, Option-cases, inl, inr,
}
use oncall_backend_private.Locks.{is_name}
use oncall_backend_private.Locks.Service.{memory_provider}
use oncall_backend_private.Workflow.Definition.{
  Context, Definition, is_terminal, is_failure_state, find_transition,
}
use oncall_backend_private.Workflow.Instance.{is_running, Instance, complete, fail, from_model}
use oncall_backend_private.Workflow.Engine.{
  EventType, Engine, Faults, Answer, ok, definition_of, record_engine_history, emit, persist,
  is_corrupt, cancel_timeout, arm_timeout, finish, finalize, settle, moved, commit,
}
use oncall_backend_private.Workflow.Engine.Calls.{
  guarded, load, guard_answer, action_patch, take_transition, signal_loaded, signal,
}
use oncall_backend_private.Workflow.Engine.Keeps.{arm_timeout-IsSame}

abbrev pub no_faults : Faults
no_faults = record { get_fails = false; put_fails = false; second_put_fails = false }

-- An answered workflow is stored, in a state.
abbrev pub IsAnswered : {V : Type 0} → String → String → Engine V × Answer V → Type 0
IsAnswered {V} id state (e, answer) =
    (i : Instance V) × (answer ≡ ok i) × (i.state ≡ state) × (lookup id e.stored ≡ some i)

module _ {V : Type 0} where
  finish-IsAnswered :
      (e : Engine V) (i : Instance V) (type : EventType) (now : ℕ)
      → IsAnswered i.workflow_id i.state (finish e i type now no_faults)
  unfolding finish emit record_engine_history persist
  finish-IsAnswered e i type now = (i, refl, refl, lookup-insert i.workflow_id i e.stored)

  pub settle-IsAnswered :
      (e : Engine V) (i : Instance V) (def : Definition V) (type : EventType) (now : ℕ)
      → IsAnswered i.workflow_id i.state (settle e i def type now no_faults)
  unfolding settle finalize emit record_engine_history persist complete fail
  settle-IsAnswered e i def type now =
      let told = emit (record_engine_history (persist e i) type i.workflow_id now) type i in
      let armed = arm_timeout told i def now in
      let idle = cancel_timeout armed i.workflow_id in
      elim (Bool-cases (is_terminal def i.state)) [
        | inr t ↦
            let at : (armed, ok i) ≡ settle e i def type now no_faults = ground (arith, t) in
            subst (IsAnswered i.workflow_id i.state) at (
              i,
              refl,
              refl,
              ap (lookup i.workflow_id) (sym (arm_timeout-IsSame told i def now).3)
                  ∙ lookup-insert i.workflow_id i e.stored,
            )
        | inl t ↦ elim (Bool-cases (is_failure_state def i.state)) [
          | inl f ↦
              let at : finish idle (fail i i.state now) EventType.failed now no_faults
                  ≡ settle e i def type now no_faults =
                ground (arith, t, f) in
              subst (IsAnswered i.workflow_id i.state) at
                (finish-IsAnswered idle (fail i i.state now) EventType.failed now)
          | inr f ↦
              let at : finish idle (complete i now) EventType.finished now no_faults
                  ≡ settle e i def type now no_faults =
                ground (arith, t, f) in
              subst (IsAnswered i.workflow_id i.state) at
                (finish-IsAnswered idle (complete i now) EventType.finished now)
        ]
      ]

  -- A workflow that a call leaves running has the timer of its state.
  pub settle-running :
      (e g : Engine V) (i m : Instance V) (def : Definition V) (type : EventType) (now : ℕ)
      → settle e i def type now no_faults ≡ (g, ok m)
      → is_running m.status ≡ true
      → (m ≡ i)
        × (g
            ≡ arm_timeout
                (emit (record_engine_history (persist e i) type i.workflow_id now) type i)
                i
                def
                now)
  unfolding settle finalize finish complete fail
  settle-running e g i m def type now h r = elim (Bool-cases (is_terminal def i.state)) [
    | inr t ↦ (ground (arith, h, t), ground (arith, h, t))
    | inl t ↦ elim (Bool-cases (is_failure_state def i.state)) [
      | inl f ↦ absurd (ground (arith, h, t, f, r))
      | inr f ↦ absurd (ground (arith, h, t, f, r))
    ]
  ]

  pub signal-load :
      (e g : Engine V) (id event : String) (payload : V) (now : ℕ) (m : Instance V)
      → e.locks ≡ none
      → signal e id event payload now no_faults ≡ (g, ok m)
      → (i : Instance V) × (def : Definition V) × (definition_of e (from_model i now) ≡ some def)
        × (signal_loaded e event payload now no_faults (from_model i now) def ≡ (g, ok m))
  unfolding signal guarded load
  signal-load e g id event payload now m free h = elim (Bool-cases (is_name id && is_name event)) [
    | inr n ↦ absurd (ground (arith, h, n))
    | inl n ↦ elim (Option-cases (lookup id e.stored)) [
      | inl o ↦ absurd (ground (arith, h, n, free, o))
      | inr (i, o) ↦ elim (Bool-cases (is_corrupt i)) [
        | inl c ↦ absurd (ground (arith, h, n, free, o, c))
        | inr c ↦ elim (Option-cases (definition_of e (from_model i now))) [
          | inl d ↦ absurd (ground (arith, h, n, free, o, c, d))
          | inr (def, d) ↦ (i, def, d, ground (arith, h, n, free, o, c, d))
        ]
      ]
    ]
  ]

  pub signal_loaded-settle :
      (e g : Engine V) (event : String) (payload : V) (now : ℕ) (i m : Instance V)
      (def : Definition V)
      → signal_loaded e event payload now no_faults i def ≡ (g, ok m)
      → (to : String) × (patch : Context V) × (settle e
            (moved e.settings i event to patch now)
            def
            EventType.transitioned
            now
            no_faults
          ≡ (g, ok m))
  unfolding signal_loaded take_transition commit
  signal_loaded-settle e g event payload now i m def h = elim (Bool-cases (is_running i.status)) [
    | inr r ↦ absurd (ground (arith, h, r))
    | inl r ↦ elim (Option-cases (find_transition def i.state event)) [
      | inl n ↦ absurd (ground (arith, h, r, n))
      | inr (t, n) ↦ elim (Option-cases (guard_answer t i.context payload)) [
        | inl a ↦ absurd (ground (arith, h, r, n, a))
        | inr (false, a) ↦ absurd (ground (arith, h, r, n, a))
        | inr (true, a) ↦ elim (Option-cases (action_patch t i.context payload)) [
          | inl p ↦ absurd (ground (arith, h, r, n, a, p))
          | inr (patch, p) ↦ (t.to, patch, ground (arith, h, r, n, a, p))
        ]
      ]
    ]
  ]

-- ===== src/Workflow/Engine/Finished.antt =====
-- What src/application/workflow/workflowService.js does to a workflow that is over.
use Prim.Native.String.{String}
use oncall_backend_private.Prelude.{
  ℕ, ◌≡◌, sym, ap, ◌∙◌, subst, Bool, true, false, ◌&&◌, not, Option, some, List, [], ◌∷◌, arith,
  All, string_key, lookup, insert, lookup-insert, lookup-insert_other, Bool-cases, inl, inr,
}
use oncall_backend_private.Locks.Service.{Buckets}
use oncall_backend_private.Workflow.Definition.{DefinitionSpec}
use oncall_backend_private.Workflow.Instance.{
  is_running, is_suspended, Instance, create_instance, transition_to, complete, fail, cancel,
  from_model,
}
use oncall_backend_private.Workflow.Engine.{Settings, Engine, Faults, persist, moved}
use oncall_backend_private.Workflow.Engine.Registered.{new_engine, register_all, register_all-same}
use oncall_backend_private.Workflow.Engine.Keeps.{IsSame}
use oncall_backend_private.Workflow.Engine.Operations.{
  Operation, starts, signals, cancels, fires, recovers, operate, operate_all, start-keeps,
  signal-keeps, cancel-keeps, fire-keeps, recover-keeps,
}

-- Each workflow is stored under its id.
abbrev pub IsKeyed : {V : Type 0} → Engine V → Type 0
IsKeyed {V} e = (id : String) (i : Instance V) → lookup id e.stored ≡ some i → i.workflow_id ≡ id

module _ {V : Type 0} where
  IsKeyed-same : (e g : Engine V) → IsSame e g → IsKeyed e → IsKeyed g
  IsKeyed-same e g (a, b, c, d) k = λ id i h. k id i (ap (lookup id) d ∙ h)

  IsKeyed-persist : (e : Engine V) (i : Instance V) → IsKeyed e → IsKeyed (persist e i)
  unfolding persist
  IsKeyed-persist e i k = λ id j h. elim (Bool-cases (string_key.same id i.workflow_id)) [
    | inl t ↦
        let at = (string_key.same_iff id i.workflow_id).0 t in
        let found : some i ≡ some j =
          sym (lookup-insert i.workflow_id i e.stored)
          ∙ subst (λ x. lookup x (insert i.workflow_id i e.stored) ≡ some j) at h in
        let same : i ≡ j = ground (arith, found) in
        subst (λ (x : Instance V). x.workflow_id ≡ id) same (sym at)
    | inr t ↦ k id j (sym (lookup-insert_other i.workflow_id id i e.stored t) ∙ h)
  ]

  IsKeyed-operate :
      (e : Engine V) (o : Operation V × ℕ × Faults) → IsKeyed e → IsKeyed (operate e o)
  unfolding operate
  IsKeyed-operate e (starts name version id input, now, faults) k =
      start-keeps IsKeyed IsKeyed-same (λ _. Unit {0}) (λ e i _. IsKeyed-persist e i)
        (λ _ _ _. (tt, tt)) e name version id input now faults k (λ _ _. tt)
  IsKeyed-operate e (signals id event payload, now, faults) k =
      signal-keeps IsKeyed IsKeyed-same (λ _. Unit {0}) (λ e i _. IsKeyed-persist e i)
        (λ _ _ _. (tt, tt)) (λ _ _ _ _ _ _ _ _ _ _ _ _ _. tt) e id event payload now faults k
  IsKeyed-operate e (cancels id, now, faults) k =
      cancel-keeps IsKeyed IsKeyed-same (λ _. Unit {0}) (λ e i _. IsKeyed-persist e i)
        (λ _ _ _ _ _ _ _. tt) e id now faults k
  IsKeyed-operate e (fires job, now, faults) k =
      fire-keeps IsKeyed IsKeyed-same (λ _. Unit {0}) (λ e i _. IsKeyed-persist e i)
        (λ _ _ _. (tt, tt)) (λ _ _ _ _ _ _ _ _ _ _ _ _ _. tt) e job now faults k
  IsKeyed-operate e (recovers, now, faults) k = recover-keeps IsKeyed IsKeyed-same e now faults k

  pub IsKeyed-operate_all :
      (e : Engine V) (os : List (Operation V × ℕ × Faults)) → IsKeyed e → IsKeyed (operate_all e os)
  unfolding operate_all
  IsKeyed-operate_all e [] k = k
  IsKeyed-operate_all e (o ∷ os) k = IsKeyed-operate_all (operate e o) os (IsKeyed-operate e o k)

-- The workflow is neither running nor suspended.
abbrev pub is_over : {V : Type 0} → Instance V → Bool
is_over i = not (is_running i.status) && not (is_suspended i.status)

-- A call does not start a workflow under the id.
abbrev pub Spares : {V : Type 0} → String → Operation V → Type 0
Spares x (starts name version id input) = string_key.same x id ≡ false
Spares x _ = Unit

module _ {V : Type 0} (x : String) (m : Instance V) (over : is_over m ≡ true) where
  abbrev IsOver : Engine V → Type 0
  IsOver e = IsKeyed e × (lookup x e.stored ≡ some m)

  abbrev IsElsewhere : Instance V → Type 0
  IsElsewhere i = string_key.same x i.workflow_id ≡ false

  IsOver-same : (e g : Engine V) → IsSame e g → IsOver e → IsOver g
  IsOver-same e g s (k, h) = (IsKeyed-same e g s k, ap (lookup x) (sym s.3) ∙ h)

  IsOver-persist : (e : Engine V) (i : Instance V) → IsElsewhere i → IsOver e → IsOver (persist e i)
  unfolding persist
  IsOver-persist e i n (k, h) =
      (IsKeyed-persist e i k, lookup-insert_other i.workflow_id x i e.stored n ∙ h)

  -- A workflow that is not over is stored elsewhere.
  not_over :
      (e : Engine V) (id : String) (i : Instance V)
      → IsOver e
      → lookup id e.stored ≡ some i
      → is_over i ≡ false
      → IsElsewhere i
  not_over e id i (k, h) g o = elim (Bool-cases (string_key.same x i.workflow_id)) [
    | inr n ↦ n
    | inl t ↦
        let at = (string_key.same_iff x i.workflow_id).0 t ∙ k id i g in
        let found : some m ≡ some i = sym h ∙ subst (λ y. lookup y e.stored ≡ some i) (sym at) g in
        let same : m ≡ i = ground (arith, found) in
        absurd (ground (arith, o, subst (λ (y : Instance V). is_over y ≡ true) same over))
  ]

  IsOver-operate :
      (e : Engine V) (o : Operation V × ℕ × Faults) → Spares x o.0 → IsOver e → IsOver (operate e o)
  unfolding operate create_instance complete fail moved transition_to from_model cancel
  IsOver-operate e (starts name version id input, now, faults) n p =
      start-keeps IsOver IsOver-same IsElsewhere IsOver-persist (λ i _ q. (q, q)) e name version id
        input now faults p (λ _ _. n)
  IsOver-operate e (signals id event payload, now, faults) n p =
      signal-keeps IsOver IsOver-same IsElsewhere IsOver-persist (λ i _ q. (q, q))
        (λ e id i _ _ _ _ _ p h _ r _. not_over e id i p h (ground (arith, r))) e id event payload
        now faults p
  IsOver-operate e (cancels id, now, faults) n p =
      cancel-keeps IsOver IsOver-same IsElsewhere IsOver-persist
        (λ e id i _ p h r. not_over e id i p h (ground (arith, r))) e id now faults p
  IsOver-operate e (fires job, now, faults) n p =
      fire-keeps IsOver IsOver-same IsElsewhere IsOver-persist (λ i _ q. (q, q))
        (λ e id i _ _ _ _ _ p h _ r _. not_over e id i p h (ground (arith, r))) e job now faults p
  IsOver-operate e (recovers, now, faults) n p = recover-keeps IsOver IsOver-same e now faults p

  IsOver-operate_all :
      (e : Engine V) (os : List (Operation V × ℕ × Faults))
      → All (λ o. Spares x o.0) os
      → IsOver e
      → IsOver (operate_all e os)
  unfolding operate_all
  IsOver-operate_all e [] n p = p
  IsOver-operate_all e (o ∷ os) (n, ns) p =
      IsOver-operate_all (operate e o) os ns (IsOver-operate e o n p)

-- A workflow that has completed, failed or been cancelled stays as it is stored, whatever calls follow and
-- whatever timers fire, unless a workflow is started under its id.
pub finished_kept :
    {V : Type 0} (settings : Settings) (locks : Option Buckets) (specs : List (DefinitionSpec V))
    (os more : List (Operation V × ℕ × Faults)) (id : String) (i : Instance V)
    → lookup id (operate_all (register_all (new_engine settings locks) specs) os).stored ≡ some i
    → is_over i ≡ true
    → All (λ o. Spares id o.0) more
    → lookup id
        (operate_all (operate_all (register_all (new_engine settings locks) specs) os) more).stored
      ≡ some i
unfolding lookup new_engine
finished_kept {V} settings locks specs os more id i h over spared =
    let e = register_all (new_engine settings locks) specs in
    let stored = (register_all-same (new_engine settings locks) specs).0 in
    let keyed : IsKeyed e = λ j m k. absurd (ground (arith, stored, k)) in
    (IsOver-operate_all id i over (operate_all e os) more spared
      (IsKeyed-operate_all e os keyed, h)).1

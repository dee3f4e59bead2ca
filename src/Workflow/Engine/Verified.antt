-- ===== src/Workflow/Engine/Verified.antt =====
-- What the calls of src/application/workflow/workflowService.js keep of the stored workflows.
use Prim.Native.String.{String}
use oncall_backend_private.Prelude.{
  ℕ, zero, suc, ◌-◌, ◌<◌, ◌≡◌, refl, sym, ap, ◌∙◌, subst, true, false, ◌||◌, Option, none, some,
  List, [], ◌∷◌, ◌++◌, length, arith, All, string_key, nat_key, pair_key, lookup, insert,
  lookup-insert, lookup-insert_other, same_refl, Bool-cases, inl, inr,
}
use oncall_backend_private.Locks.{is_name}
use oncall_backend_private.Locks.Service.{Buckets}
use oncall_backend_private.Workflow.Definition.{Context, DefinitionSpec, Definition, declares}
use oncall_backend_private.Workflow.Instance.{
  is_running, is_suspended, Entry, Instance, last_entries, create_instance, nonzero_or,
  transition_to, complete, fail, cancel, from_model,
}
use oncall_backend_private.Workflow.Engine.{
  Settings, Engine, Faults, resolve, definition_of, is_corrupt, persist, moved,
}
use oncall_backend_private.Workflow.Engine.Calls.{verify_workflow}
use oncall_backend_private.Workflow.Engine.Registered.{
  NamesStates, IsPlain, has_at, IsFollowable, IsRegistry, new_engine, register_all, registered-lem,
}
use oncall_backend_private.Workflow.Engine.Keeps.{IsSame}
use oncall_backend_private.Workflow.Engine.Operations.{
  IsTarget, Operation, starts, signals, cancels, fires, recovers, operate, operate_all, start-keeps,
  signal-keeps, cancel-keeps, fire-keeps, recover-keeps,
}
use oncall_backend_private.Workflow.Engine.Histories.{
  IsHistory, IsHistory-append, IsHistory-drop, IsHistory-discontinuities, IsHistory-last,
}

nonzero_or_lem : (n : ℕ) → 0 < n → nonzero_or n 1 ≡ n
nonzero_or_lem zero h = absurd (omega (arith, h))
nonzero_or_lem (suc n) h = refl

named :
    (V : Type 0) (def : Definition V) (state : String)
    → declares def.states "" ≡ false
    → declares def.states state ≡ true
    → is_name state ≡ true
named V def String.[] n d = absurd (ground (arith, n, d))
named V def (String.◌∷◌ c s) n d = refl

module _ {V : Type 0} (keys : List ((String × ℕ) × Definition V))
    (names : List (String × Definition V)) (registry : IsRegistry keys names) where
  -- What a stored workflow satisfies.
  abbrev pub IsValid : Instance V → Type 0
  IsValid i =
      (0 < i.definition_version)
      × IsHistory i.history i.state
      × ((def : Definition V) × (lookup (i.definition_name, i.definition_version) keys ≡ some def)
          × (declares def.states i.state ≡ true))

  abbrev pub IsSound : Engine V → Type 0
  IsSound e =
      (e.by_key ≡ keys)
      × (e.by_name ≡ names)
      × ((id : String) (i : Instance V) → lookup id e.stored ≡ some i → IsValid i)

  IsSound-same : (e g : Engine V) → IsSame e g → IsSound e → IsSound g
  IsSound-same e g (a, b, c, d) (k, n, v) =
      (sym a ∙ k, sym b ∙ n, λ id i h. v id i (ap (lookup id) d ∙ h))

  IsSound-persist : (e : Engine V) (i : Instance V) → IsValid i → IsSound e → IsSound (persist e i)
  unfolding persist
  IsSound-persist e i valid (k, n, v) = (
    k,
    n,
    λ id j h. elim (Bool-cases (string_key.same id i.workflow_id)) [
      | inl t ↦
          let at = (string_key.same_iff id i.workflow_id).0 t in
          let found : some i ≡ some j =
            sym (lookup-insert i.workflow_id i e.stored)
            ∙ subst (λ x. lookup x (insert i.workflow_id i e.stored) ≡ some j) at h in
          let same : i ≡ j = ground (arith, found) in subst IsValid same valid
      | inr t ↦ v id j (sym (lookup-insert_other i.workflow_id id i e.stored t) ∙ h)
    ],
  )

  IsValid-over :
      (i : Instance V) (now : ℕ)
      → IsValid i
      → IsValid (complete i now) × IsValid (fail i i.state now)
  unfolding complete fail
  IsValid-over i now v = (v, v)

  IsValid-from_model : (i : Instance V) (now : ℕ) → IsValid i → IsValid (from_model i now)
  unfolding from_model
  IsValid-from_model i now (p, c, d) =
      let same = nonzero_or_lem i.definition_version p in
      (
        subst (λ n. 0 < n) (sym same) p,
        c,
        subst
            (λ n.
              (def : Definition V) × (lookup (i.definition_name, n) keys ≡ some def)
              × (declares def.states i.state ≡ true))
            (sym same) d,
      )

  resolve-lookup :
      (e : Engine V) (name : String) (version : Option ℕ) (def : Definition V)
      → IsSound e
      → resolve e name version ≡ some def
      → lookup (def.name, def.version) keys ≡ some def
  unfolding resolve
  resolve-lookup e name none def (k, n, v) h =
      (registry.1 name def (sym (ap (lookup name) n) ∙ h)).1
  resolve-lookup e name (some zero) def (k, n, v) h =
      (registry.1 name def (sym (ap (lookup name) n) ∙ h)).1
  resolve-lookup e name (some (suc m)) def (k, n, v) h =
      let found = sym (ap (lookup (name, suc m)) k) ∙ h in
      subst (λ x. lookup x keys ≡ some def) (registry.0 (name, suc m) def found).0 found

  IsValid-begins :
      (e : Engine V) (name : String) (version : Option ℕ) (id : String) (input : Context V)
      (now : ℕ) (def : Definition V)
      → IsSound e
      → resolve e name version ≡ some def
      → IsValid (create_instance id def.name def.version def.initial input now)
  unfolding create_instance resolve
  IsValid-begins e name version id input now def s h =
      let found = resolve-lookup e name version def s h in
      let (at, (late, _, _, initial, _, _)) = registry.0 (def.name, def.version) def found in
      (late, tt, (def, found, initial))

  IsValid-moves :
      (e : Engine V) (id : String) (i : Instance V) (def : Definition V) (event to : String)
      (patch : Context V) (now : ℕ)
      → IsSound e
      → lookup id e.stored ≡ some i
      → definition_of e (from_model i now) ≡ some def
      → is_running i.status ≡ true
      → IsTarget def i.state to
      → IsValid (moved e.settings (from_model i now) event to patch now)
  unfolding moved transition_to from_model last_entries definition_of
  IsValid-moves e id i def event to patch now (k, n, v) h d r t =
      let (late, history, (own, found, declared)) = IsValid-from_model i now (v id i h) in
      let model = from_model i now in
      let keyed = ap (lookup (model.definition_name, model.definition_version)) k ∙ found in
      let same : own ≡ def = ground (arith, keyed, d) in
      let (_, _, _, _, by_event, by_time) =
        subst IsFollowable same
          (registry.0 (model.definition_name, model.definition_version) own found).1 in
      let entry : Entry = record {
        from = i.state;
        to = to;
        event = event;
        at = now;
        version = model.version;
      } in
      let led : declares def.states to ≡ true = elim t [
        | inl (on, u, f, e) ↦ subst (λ x. declares def.states x ≡ true) e (by_event i.state on u f)
        | inr (o, f, e) ↦ subst (λ x. declares def.states x ≡ true) e (by_time i.state o f)
      ] in
      (
        late,
        IsHistory-drop (length (i.history ++ entry ∷ []) - e.settings.history_limit)
            (i.history ++ entry ∷ []) to (IsHistory-append i.history entry history),
        (own, found, subst (λ (x : Definition V). declares x.states to ≡ true) (sym same) led),
      )

  IsValid-stops :
      (e : Engine V) (id : String) (i : Instance V) (now : ℕ)
      → IsSound e
      → lookup id e.stored ≡ some i
      → (is_running i.status || is_suspended i.status) ≡ true
      → IsValid (cancel (from_model i now) now)
  unfolding cancel
  IsValid-stops e id i now (k, n, v) h r = IsValid-from_model i now (v id i h)

  IsSound-operate :
      (e : Engine V) (o : Operation V × ℕ × Faults) → IsSound e → IsSound (operate e o)
  unfolding operate
  IsSound-operate e (starts name version id input, now, faults) s =
      start-keeps IsSound IsSound-same IsValid IsSound-persist IsValid-over e name version id input
        now faults s (λ def h. IsValid-begins e name version id input now def s h)
  IsSound-operate e (signals id event payload, now, faults) s =
      signal-keeps IsSound IsSound-same IsValid IsSound-persist IsValid-over IsValid-moves e id
        event payload now faults s
  IsSound-operate e (cancels id, now, faults) s =
      cancel-keeps IsSound IsSound-same IsValid IsSound-persist IsValid-stops e id now faults s
  IsSound-operate e (fires job, now, faults) s =
      fire-keeps IsSound IsSound-same IsValid IsSound-persist IsValid-over IsValid-moves e job now
        faults s
  IsSound-operate e (recovers, now, faults) s = recover-keeps IsSound IsSound-same e now faults s

  IsSound-operate_all :
      (e : Engine V) (os : List (Operation V × ℕ × Faults)) → IsSound e → IsSound (operate_all e os)
  unfolding operate_all
  IsSound-operate_all e [] s = s
  IsSound-operate_all e (o ∷ os) s = IsSound-operate_all (operate e o) os (IsSound-operate e o s)

  -- What is sound is verified.
  pub IsSound-verified :
      (e : Engine V) (id : String) (i : Instance V)
      → IsSound e
      → lookup id e.stored ≡ some i
      → verify_workflow e id ≡ []
  unfolding verify_workflow definition_of is_corrupt
  IsSound-verified e id i (k, n, v) h =
      let (late, history, (def, found, declared)) = v id i h in
      let (at, (_, name, unnamed, _, _, _)) =
        registry.0 (i.definition_name, i.definition_version) def found in
      ground (
        arith,
        h,
        ap (lookup (i.definition_name, i.definition_version)) k ∙ found,
        declared,
        subst (λ x. is_name x ≡ true) (sym (ap (λ x. x.0) at)) name,
        named V def i.state unnamed declared,
        IsHistory-discontinuities i.history i.state history,
        subst (λ x. string_key.same x i.state ≡ true)
            (sym (IsHistory-last i.history i.state history)) (same_refl i.state),
      )

-- A call asks for a definition by a name with no `@` only.
abbrev pub AsksPlain : {V : Type 0} → Operation V × ℕ × Faults → Type 0
AsksPlain (starts name version id input, now, faults) = has_at name ≡ false
AsksPlain _ = Unit

-- Whatever is called on an engine with the registered definitions, in whatever order, and whether the storage
-- fails or locks are refused, every workflow that is stored passes `verifyWorkflow`: its record is whole, its
-- state is declared, its history has no gap and ends at its state. No registered state has the empty name,
-- and no name that a definition is registered under or that a call starts contains `@`, which would make
-- the engine take one definition for a version of another.
pub operate_all-verified :
    {V : Type 0} (settings : Settings) (locks : Option Buckets) (specs : List (DefinitionSpec V))
    (os : List (Operation V × ℕ × Faults)) (id : String) (i : Instance V)
    → All NamesStates specs
    → All IsPlain specs
    → All AsksPlain os
    → lookup id (operate_all (register_all (new_engine settings locks) specs) os).stored ≡ some i
    → verify_workflow (operate_all (register_all (new_engine settings locks) specs) os) id ≡ []
unfolding lookup
operate_all-verified {V} settings locks specs os id i labels plain asked h =
    let e = register_all (new_engine settings locks) specs in
    let (registry, stored, _) = registered-lem settings locks specs labels in
    let empty : (j : String) (m : Instance V)
        → lookup j e.stored ≡ some m
        → IsValid e.by_key e.by_name registry m =
      λ j m k. absurd (ground (arith, stored, k)) in
    IsSound-verified e.by_key e.by_name registry (operate_all e os) id i
      (IsSound-operate_all e.by_key e.by_name registry e os (refl, refl, empty)) h

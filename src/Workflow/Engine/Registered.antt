-- ===== src/Workflow/Engine/Registered.antt =====
-- What the registered definitions of src/application/workflow/workflowService.js satisfy.
use Prim.Native.String.{String}
use oncall_backend_private.Prelude.{
  ℕ, ◌<◌, ◌≡◌, refl, sym, ap, ◌∙◌, subst, Bool, ◌||◌, true, false, Option, some, List, [], ◌∷◌,
  arith, All, string_key, nat_key, pair_key, lookup, insert, lookup-insert, lookup-insert_other,
  same_pair, same_pair_iff, Bool-cases, Option-cases, inl, inr, ◌⊎◌,
}
use oncall_backend_private.Locks.{is_name}
use oncall_backend_private.Locks.Service.{Buckets}
use oncall_backend_private.Workflow.Definition.{
  Timeout, StateSpec, Transition, DefinitionSpec, Definition, Created, created, refused,
  DefinitionError, declares, create_definition, find_transition, timeout_for,
}
use oncall_backend_private.Workflow.Definition.Declared.{
  IsDeclared, TimeoutIsDeclared, declared_for, create_definition-IsAccepted,
}
use oncall_backend_private.Workflow.Engine.{Engine, Settings, register, register_definition}

-- No state of a specification has the empty name.
abbrev pub NamesStates : {V : Type 0} → DefinitionSpec V → Type 0
NamesStates spec = declares spec.states "" ≡ false

-- Whether a text contains `@`, which the engine puts between a name and a version.
unfoldable pub has_at : String → Bool
has_at String.[] = false
has_at (String.◌∷◌ c s) = string_key.same (String.◌∷◌ c String.[]) "@" || has_at s

-- The name of a specification contains no `@`.
abbrev pub IsPlain : {V : Type 0} → DefinitionSpec V → Type 0
IsPlain spec = has_at spec.name ≡ false

-- A definition that the engine can follow: what its transitions and timeouts lead to is declared.
abbrev pub IsFollowable : {V : Type 0} → Definition V → Type 0
IsFollowable {V} def =
    (0 < def.version)
    × (is_name def.name ≡ true)
    × (declares def.states "" ≡ false)
    × (declares def.states def.initial ≡ true)
    × ((from event : String) (t : Transition V)
        → find_transition def from event ≡ some t
        → declares def.states t.to ≡ true)
    × ((state : String) (to : Timeout)
        → timeout_for def state ≡ some to
        → declares def.states to.to ≡ true)

module _ {V : Type 0} where
  declared_for-IsDeclared :
      (states : List (String × StateSpec)) (ts : List (Transition V)) (from event : String)
      (t : Transition V)
      → All (IsDeclared states) ts
      → declared_for from event ts ≡ some t
      → declares states t.to ≡ true
  unfolding declared_for
  declared_for-IsDeclared states [] from event t a h = absurd (ground (arith, h))
  declared_for-IsDeclared states (u ∷ ts) from event t (d, a) h =
      elim (Bool-cases (same_pair (from, event) (u.from, u.on))) [
        | inl e ↦
            let same : u ≡ t = ground (arith, e, h) in
            subst (λ (x : Transition V). declares states x.to ≡ true) same d.1
        | inr e ↦ declared_for-IsDeclared states ts from event t a (ground (arith, e, h))
      ]

lookup-timeout :
    (states rest : List (String × StateSpec)) (state : String) (s : StateSpec) (to : Timeout)
    → All (λ r. TimeoutIsDeclared states r.1.on_timeout) rest
    → lookup state rest ≡ some s
    → s.on_timeout ≡ some to
    → declares states to.to ≡ true
unfolding lookup
lookup-timeout states [] state s to a h g = absurd (ground (arith, h))
lookup-timeout states ((name, r) ∷ rest) state s to (d, a) h g =
    elim (Bool-cases (string_key.same state name)) [
      | inl e ↦
          let same : r ≡ s = ground (arith, e, h) in
          (subst (TimeoutIsDeclared states) (ap (λ (x : StateSpec). x.on_timeout) same ∙ g) d).1
      | inr e ↦ lookup-timeout states rest state s to a (ground (arith, e, h)) g
    ]

module _ {V : Type 0} where
  accepted-IsFollowable :
      (spec : DefinitionSpec V) (def : Definition V)
      → NamesStates spec
      → create_definition spec ≡ created def
      → IsFollowable def
  unfolding timeout_for
  accepted-IsFollowable spec def n h =
      let (a, b, c, d, e, f, g, ts, os, found) = create_definition-IsAccepted spec def h in
      (
        d,
        e,
        subst (λ x. declares x "" ≡ false) (sym c) n,
        g,
        λ from event t k.
            declared_for-IsDeclared def.states spec.transitions from event t ts
              (sym (found from event) ∙ k),
        λ state to k. elim (Option-cases (lookup state def.states)) [
          | inl n ↦ absurd (ground (arith, n, k))
          | inr (s, n) ↦ lookup-timeout def.states def.states state s to os n (ground (arith, n, k))
        ],
      )

  -- The keys of a registry are those of its definitions.
  abbrev pub IsRegistry : List ((String × ℕ) × Definition V) → List (String × Definition V) → Type 0
  IsRegistry by_key by_name =
      ((k : String × ℕ) (def : Definition V)
        → lookup k by_key ≡ some def
        → (k ≡ (def.name, def.version)) × IsFollowable def)
      × ((n : String) (def : Definition V)
          → lookup n by_name ≡ some def
          → (n ≡ def.name) × (lookup (def.name, def.version) by_key ≡ some def))

  other_name :
      (def : Definition V) (n : String) (v : ℕ)
      → string_key.same n def.name ≡ false
      → same_pair (n, v) (def.name, def.version) ≡ false
  unfolding same_pair
  other_name def n v h = ground (arith, h)

  Created-cases :
      (c : Created V)
      → ((def : Definition V) × (c ≡ created def)) ⊎ ((why : DefinitionError) × (c ≡ refused why))
  Created-cases (created def) = inl (def, refl)
  Created-cases (refused why) = inr (why, refl)

  register-same :
      (e : Engine V) (spec : DefinitionSpec V)
      → ((register e spec).0.stored ≡ e.stored) × ((register e spec).0.settings ≡ e.settings)
  unfolding register register_definition
  register-same e spec = ground arith

  registered-IsRegistry :
      (e : Engine V) (def : Definition V)
      → IsFollowable def
      → IsRegistry e.by_key e.by_name
      → IsRegistry (register_definition e def).by_key (register_definition e def).by_name
  unfolding register_definition
  registered-IsRegistry e def f (keys, names) = (
    λ k d h. elim (Bool-cases (same_pair k (def.name, def.version))) [
      | inl s ↦
          let at = (same_pair_iff k (def.name, def.version)).0 s in
          let found : some def ≡ some d =
            sym (lookup-insert (def.name, def.version) def e.by_key)
            ∙ subst (λ x. lookup x (insert (def.name, def.version) def e.by_key) ≡ some d) at h in
          let same : def ≡ d = ground (arith, found) in
          subst (λ (x : Definition V). (k ≡ (x.name, x.version)) × IsFollowable x) same (at, f)
      | inr s ↦ keys k d (sym (lookup-insert_other (def.name, def.version) k def e.by_key s) ∙ h)
    ],
    λ n d h. elim (Bool-cases (string_key.same n def.name)) [
      | inl s ↦
          let at = (string_key.same_iff n def.name).0 s in
          let found : some def ≡ some d =
            sym (lookup-insert def.name def e.by_name)
            ∙ subst (λ x. lookup x (insert def.name def e.by_name) ≡ some d) at h in
          let same : def ≡ d = ground (arith, found) in
          subst
            (λ (x : Definition V).
              (n ≡ x.name)
              × (lookup (x.name, x.version) (insert (def.name, def.version) def e.by_key) ≡ some x))
            same (at, lookup-insert (def.name, def.version) def e.by_key)
      | inr s ↦
          let (at, keyed) = names n d (sym (lookup-insert_other def.name n def e.by_name s) ∙ h) in
          (
            at,
            lookup-insert_other (def.name, def.version) (d.name, d.version) def e.by_key
                  (other_name def d.name d.version
                    (subst (λ x. string_key.same x def.name ≡ false) at s))
                ∙ keyed,
          )
    ],
  )

  register-IsRegistry :
      (e : Engine V) (spec : DefinitionSpec V)
      → NamesStates spec
      → IsRegistry e.by_key e.by_name
      → IsRegistry (register e spec).0.by_key (register e spec).0.by_name
  unfolding register
  register-IsRegistry e spec n h = elim (Created-cases (create_definition spec)) [
    | inl (def, c) ↦
        let same : register_definition e def ≡ (register e spec).0 = ground (arith, c) in
        subst (λ (x : Engine V). IsRegistry x.by_key x.by_name) same
          (registered-IsRegistry e def (accepted-IsFollowable spec def n c) h)
    | inr (why, c) ↦
        let same : e ≡ (register e spec).0 = ground (arith, c) in
        subst (λ (x : Engine V). IsRegistry x.by_key x.by_name) same h
  ]

  -- An engine that starts, and the registrations on it.
  unfoldable pub new_engine : Settings → Option Buckets → Engine V
  new_engine settings locks = record {
    settings = settings;
    by_key = [];
    by_name = [];
    stored = [];
    timers = [];
    jobs = [];
    next_job = 1;
    locks = locks;
    engine_history = [];
    published = [];
  }

  unfoldable pub register_all : Engine V → List (DefinitionSpec V) → Engine V
  register_all e [] = e
  register_all e (spec ∷ specs) = register_all (register e spec).0 specs

  register_all-IsRegistry :
      (e : Engine V) (specs : List (DefinitionSpec V))
      → All NamesStates specs
      → IsRegistry e.by_key e.by_name
      → IsRegistry (register_all e specs).by_key (register_all e specs).by_name
  unfolding register_all
  register_all-IsRegistry e [] n h = h
  register_all-IsRegistry e (spec ∷ specs) (n, ns) h =
      register_all-IsRegistry (register e spec).0 specs ns (register-IsRegistry e spec n h)

  pub register_all-same :
      (e : Engine V) (specs : List (DefinitionSpec V))
      → ((register_all e specs).stored ≡ e.stored) × ((register_all e specs).settings ≡ e.settings)
  unfolding register_all
  register_all-same e [] = (refl, refl)
  register_all-same e (spec ∷ specs) =
      let (s, t) = register_all-same (register e spec).0 specs in
      (s ∙ (register-same e spec).0, t ∙ (register-same e spec).1)

  pub registered-lem :
      (settings : Settings) (locks : Option Buckets) (specs : List (DefinitionSpec V))
      → All NamesStates specs
      → IsRegistry
          (register_all (new_engine settings locks) specs).by_key
          (register_all (new_engine settings locks) specs).by_name
        × ((register_all (new_engine settings locks) specs).stored ≡ [])
        × ((register_all (new_engine settings locks) specs).settings ≡ settings)
  unfolding new_engine lookup
  registered-lem settings locks specs n = (
    register_all-IsRegistry (new_engine settings locks) specs n
        (λ k d h. absurd (ground (arith, h)), λ n d h. absurd (ground (arith, h))),
    (register_all-same (new_engine settings locks) specs).0,
    (register_all-same (new_engine settings locks) specs).1,
  )

-- ===== src/Workflow/Definition/Declared.antt =====
-- What createDefinition of src/domain/workflow/definition.js accepts.
use Prim.Native.String.{String}
use oncall_backend_private.Prelude.{
  ◌<◌, ◌≡◌, refl, sym, subst, Bool, true, false, not, Option, none, some, List, [], ◌∷◌, ◌++◌,
  if◌then◌else◌, ltb, arith, All, string_key, pair_key, lookup, insert, lookup-insert,
  lookup-insert_other, same_pair, same_pair_iff, Bool-cases, Option-cases, inl, inr,
}
use oncall_backend_private.Locks.{is_name}
use oncall_backend_private.Workflow.Definition.{
  Timeout, StateSpec, Transition, DefinitionSpec, Problem, unknown_from, unknown_to, missing_on,
  duplicate, bad_timeout, unknown_timeout, Index, Definition, created, is_given, declares, unless,
  is_nil, index_all, timeout_problems, create_definition, find_transition,
}

unless-nil :
    (b : Bool) (p : Problem) (ps : List Problem) → unless b p ++ ps ≡ [] → (b ≡ true) × (ps ≡ [])
unless-nil true p ps h = (refl, h)
unless-nil false p ps h = absurd (ground (arith, h))

-- The states that a transition names are declared, and so is its event.
abbrev pub IsDeclared : {V : Type 0} → List (String × StateSpec) → Transition V → Type 0
IsDeclared states t =
    (declares states t.from ≡ true) × (declares states t.to ≡ true) × (is_name t.on ≡ true)

abbrev pub TimeoutIsDeclared : List (String × StateSpec) → Option Timeout → Type 0
TimeoutIsDeclared states none = Unit
TimeoutIsDeclared states (some t) = (0 < t.after_ms) × (declares states t.to ≡ true)

abbrev pub or_else {ℓ} : {A : Type ℓ} → Option A → Option A → Option A
or_else none b = b
or_else (some a) b = some a

module _ {V : Type 0} where
  -- The first transition of a list for a state and an event.
  unfoldable pub declared_for : String → String → List (Transition V) → Option (Transition V)
  declared_for from event [] = none
  declared_for from event (t ∷ ts) =
      let rest = declared_for from event ts in
      if same_pair (from, event) (t.from, t.on) then some t else rest

  index_all-IsDeclared :
      (states : List (String × StateSpec)) (index : Index V) (ts : List (Transition V))
      → (index_all states index ts).1 ≡ []
      → All (IsDeclared states) ts
  unfolding index_all
  index_all-IsDeclared states index [] h = tt
  index_all-IsDeclared states index (t ∷ ts) h =
      let (from, h1) = unless-nil (declares states t.from) unknown_from _ h in
      let (to, h2) = unless-nil (declares states t.to) unknown_to _ h1 in
      let (on, h3) = unless-nil (is_name t.on) missing_on _ h2 in
      let (new, h4) = unless-nil (not (is_given (lookup (t.from, t.on) index))) duplicate _ h3 in
      ((from, to, on), index_all-IsDeclared states (insert (t.from, t.on) t index) ts h4)

  -- Without duplicates the index answers what it held, and then the first transition of the list.
  index_all-lookup :
      (states : List (String × StateSpec)) (index : Index V) (ts : List (Transition V))
      (from event : String)
      → (index_all states index ts).1 ≡ []
      → lookup (from, event) (index_all states index ts).0
        ≡ or_else (lookup (from, event) index) (declared_for from event ts)
  unfolding index_all declared_for
  index_all-lookup states index [] from event h = ground arith
  index_all-lookup states index (t ∷ ts) from event h =
      let (b, h1) = unless-nil (declares states t.from) unknown_from _ h in
      let (c, h2) = unless-nil (declares states t.to) unknown_to _ h1 in
      let (d, h3) = unless-nil (is_name t.on) missing_on _ h2 in
      let (new, h4) = unless-nil (not (is_given (lookup (t.from, t.on) index))) duplicate _ h3 in
      let ih = index_all-lookup states (insert (t.from, t.on) t index) ts from event h4 in
      elim (Bool-cases (same_pair (from, event) (t.from, t.on))) [
        | inl e ↦
            let same = (same_pair_iff (from, event) (t.from, t.on)).0 e in
            ground (
              arith,
              ih,
              e,
              subst (λ k. lookup k (insert (t.from, t.on) t index) ≡ some t) (sym same)
                  (lookup-insert (t.from, t.on) t index),
              subst (λ k. not (is_given (lookup k index)) ≡ true) (sym same) new,
            )
        | inr e ↦ ground (arith, ih, e, lookup-insert_other (t.from, t.on) (from, event) t index e)
      ]

timeouts_declared :
    (states rest : List (String × StateSpec))
    → timeout_problems states rest ≡ []
    → All (λ s. TimeoutIsDeclared states s.1.on_timeout) rest
unfolding timeout_problems
timeouts_declared states [] h = tt
timeouts_declared states ((name, s) ∷ rest) h = elim (Option-cases s.on_timeout) [
  | inl e ↦ (
    subst (TimeoutIsDeclared states) (sym e) tt,
    timeouts_declared states rest (ground (arith, e, h)),
  )
  | inr (t, e) ↦
      let first : unless (ltb 0 t.after_ms) bad_timeout
            ++ (unless (declares states t.to) unknown_timeout ++ timeout_problems states rest)
          ≡ [] =
        ground (arith, e, h) in
      let (late, h1) = unless-nil (ltb 0 t.after_ms) bad_timeout _ first in
      let (to, h2) = unless-nil (declares states t.to) unknown_timeout _ h1 in
      (
        subst (TimeoutIsDeclared states) (sym e) (ground (arith, late), to),
        timeouts_declared states rest h2,
      )
]

append-nil : (xs ys : List Problem) → xs ++ ys ≡ [] → (xs ≡ []) × (ys ≡ [])
append-nil [] ys h = (refl, h)
append-nil (x ∷ xs) ys h = absurd (ground (arith, h))

is_nil-nil : (xs : List Problem) → is_nil xs ≡ true → xs ≡ []
is_nil-nil [] h = refl
is_nil-nil (x ∷ xs) h = absurd (ground (arith, h))

module _ {V : Type 0} where
  -- What an accepted specification and its definition satisfy.
  abbrev pub IsAccepted : DefinitionSpec V → Definition V → Type 0
  IsAccepted spec def =
      (def.name ≡ spec.name)
      × (def.initial ≡ spec.initial)
      × (def.states ≡ spec.states)
      × (0 < def.version)
      × (is_name def.name ≡ true)
      × (is_name def.initial ≡ true)
      × (declares def.states def.initial ≡ true)
      × All (IsDeclared def.states) spec.transitions
      × All (λ s. TimeoutIsDeclared def.states s.1.on_timeout) def.states
      × ((from event : String)
          → find_transition def from event ≡ declared_for from event spec.transitions)

  -- A definition that is created has the states of the specification. The first state, the two states of every
  -- transition and the state that every timeout leads to, after more than no time, are declared, and the
  -- definition finds for a state and an event the transition that the specification lists for them, and no other.
  pub create_definition-IsAccepted :
      (spec : DefinitionSpec V) (def : Definition V)
      → create_definition spec ≡ created def
      → IsAccepted spec def
  unfolding create_definition find_transition lookup
  create_definition-IsAccepted spec def h =
      let index = (index_all spec.states [] spec.transitions).0 in
      let wrong = (index_all spec.states [] spec.transitions).1 in
      let late = timeout_problems spec.states spec.states in
      let none_wrong : is_nil (wrong ++ late) ≡ true = ground (arith, h) in
      let (w, l) = append-nil wrong late (is_nil-nil (wrong ++ late) none_wrong) in
      let states : spec.states ≡ def.states = ground (arith, h) in
      let indexed : index ≡ def.index = ground (arith, h) in
      (
        ground (arith, h),
        ground (arith, h),
        sym states,
        ground (arith, h),
        ground (arith, h),
        ground (arith, h),
        ground (arith, h),
        subst (λ s. All (IsDeclared s) spec.transitions) states
            (index_all-IsDeclared spec.states [] spec.transitions w),
        subst (λ s. All (λ r. TimeoutIsDeclared s r.1.on_timeout) s) states
            (timeouts_declared spec.states spec.states l),
        λ from event.
            subst (λ x. lookup (from, event) x ≡ declared_for from event spec.transitions) indexed
              (index_all-lookup spec.states [] spec.transitions from event w),
      )

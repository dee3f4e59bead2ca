-- ===== src/Workflow/Definition.antt =====
-- The definition of a workflow, src/domain/workflow/definition.js. Names are texts. The key of a transition is
-- the pair of its state and event where the source writes the text `from::event`; names that contain `::`, the
-- names that every JavaScript object has, and the metadata of a definition, which nothing reads, are left out.
-- V is the type of the values in a context and of a signal's payload.
pub mod Declared
use Prim.Native.String.{String}
use oncall_backend_private.Prelude.{
  ℕ, zero, suc, Bool, true, false, ◌&&◌, not, Option, none, some, List, [], ◌∷◌, ◌++◌,
  if◌then◌else◌, ltb, string_key, pair_key, lookup, insert,
}
use oncall_backend_private.Locks.{is_name}

-- `onTimeout`.
pub record Timeout : Type 0 where
  pub after_ms : ℕ
  pub to : String

pub record StateSpec : Type 0 where
  pub terminal : Bool
  pub failure : Bool
  pub on_timeout : Option Timeout

abbrev pub Context : Type 0 → Type 0
Context V = List (String × V)

-- A guard and an action may throw, which is none.
pub record Transition (V : Type 0) : Type 0 where
  pub from : String
  pub on : String
  pub to : String
  pub guard : Option (Context V → V → Option Bool)
  pub action : Option (Context V → V → Option (Context V))

pub record DefinitionSpec (V : Type 0) : Type 0 where
  pub name : String
  pub version : Option ℕ
  pub initial : String
  pub states : List (String × StateSpec)
  pub transitions : List (Transition V)

pub data Problem : Type 0 where
  unknown_from unknown_to missing_on duplicate bad_timeout unknown_timeout : Problem

-- What `createDefinition` throws.
pub data DefinitionError : Type 0 where
  name_required states_required initial_required : DefinitionError
  invalid : List Problem → DefinitionError

abbrev pub Index : Type 0 → Type 0
Index V = List ((String × String) × Transition V)

pub record Definition (V : Type 0) : Type 0 where
  pub name : String
  pub version : ℕ
  pub initial : String
  pub states : List (String × StateSpec)
  pub index : Index V

pub data Created (V : Type 0) : Type 0 where
  created : Definition V → Created V
  refused : DefinitionError → Created V

abbrev pub is_given {ℓ} : {A : Type ℓ} → Option A → Bool
is_given none = false
is_given (some a) = true

-- `states[name]`.
abbrev pub declares : List (String × StateSpec) → String → Bool
declares states name = is_given (lookup name states)

-- `x || fallback` on a number.
abbrev pub number_or : Option ℕ → ℕ → ℕ
number_or none fallback = fallback
number_or (some zero) fallback = fallback
number_or (some (suc n)) fallback = suc n

abbrev pub unless : Bool → Problem → List Problem
unless true p = []
unless false p = p ∷ []

module _ {V : Type 0} where
  -- The loop over the transitions: the index, and the problems.
  unfoldable pub index_all :
      List (String × StateSpec) → Index V → List (Transition V) → Index V × List Problem
  index_all states index [] = (index, [])
  index_all states index (t ∷ ts) =
      let (all, later) = index_all states (insert (t.from, t.on) t index) ts in
      (
        all,
        unless (declares states t.from) unknown_from
            ++ (unless (declares states t.to) unknown_to
                ++ (unless (is_name t.on) missing_on
                    ++ (unless (not (is_given (lookup (t.from, t.on) index))) duplicate ++ later))),
      )

-- The loop over the timeouts.
unfoldable pub timeout_problems :
    List (String × StateSpec) → List (String × StateSpec) → List Problem
timeout_problems states [] = []
timeout_problems states ((name, s) ∷ rest) =
    let later = timeout_problems states rest in
    elim s.on_timeout [
      | none ↦ later
      | some t ↦
          unless (ltb 0 t.after_ms) bad_timeout
          ++ (unless (declares states t.to) unknown_timeout ++ later)
    ]

abbrev pub is_nil {ℓ} : {A : Type ℓ} → List A → Bool
is_nil [] = true
is_nil (x ∷ xs) = false

module _ {V : Type 0} where
  -- `createDefinition`.
  unfoldable pub create_definition : DefinitionSpec V → Created V
  create_definition spec =
      let (index, wrong) = index_all spec.states [] spec.transitions in
      let errors = wrong ++ timeout_problems spec.states spec.states in
      if not (is_name spec.name)
      then refused name_required
      else if is_nil spec.states
      then refused states_required
      else if not (is_name spec.initial && declares spec.states spec.initial)
      then refused initial_required
      else if not (is_nil errors)
      then refused (invalid errors)
      else created (record {
        name = spec.name;
        version = number_or spec.version 1;
        initial = spec.initial;
        states = spec.states;
        index = index;
      })

  abbrev pub is_state : Definition V → String → Bool
  is_state def name = declares def.states name

  -- `isTerminal`, `isFailureState`, `timeoutFor`.
  unfoldable pub is_terminal : Definition V → String → Bool
  is_terminal def name = elim (lookup name def.states) [ none ↦ false | some s ↦ s.terminal ]

  unfoldable pub is_failure_state : Definition V → String → Bool
  is_failure_state def name = elim (lookup name def.states) [ none ↦ false | some s ↦ s.failure ]

  unfoldable pub timeout_for : Definition V → String → Option Timeout
  timeout_for def state = elim (lookup state def.states) [ none ↦ none | some s ↦ s.on_timeout ]

  -- `findTransition`.
  unfoldable pub find_transition : Definition V → String → String → Option (Transition V)
  find_transition def from event = lookup (from, event) def.index

-- ===== src/Policies.antt =====
-- The policy engine: conditions (src/domain/policy/condition.js), policies (policy.js) and the decision
-- (decision.js). A request is a type with its scope; the test of a leaf, whose operators compare the values
-- of the language, is a function of the request, none where it throws, as is a custom predicate.
pub mod Decision
pub mod Validation
use oncall_backend_private.Prelude.{
  ℕ, Bool, true, false, not, ◌&&◌, ◌||◌, Option, none, some, List, [], ◌∷◌, ◌++◌, ltb, ◌==◌,
  if◌then◌else◌, keep,
}

mutual
  -- A node of a condition: unconditional, a composition, a leaf with whether its operator is known, a
  -- custom predicate, or another shape.
  pub data Condition (R : Type 0) : Type 0 where
    always malformed : Condition R
    all some_of : Conditions R → Condition R
    negate : Condition R → Condition R
    leaf : Bool → (R → Option Bool) → Condition R
    custom : (R → Option Bool) → Condition R

  pub data Conditions (R : Type 0) : Type 0 where
    stop : Conditions R
    also : Condition R → Conditions R → Conditions R

abbrev negated : Option Bool → Option Bool
negated none = none
negated (some b) = some (not b)

module _ {R : Type 0} (r : R) where
  unfoldable mutual
    -- `evaluate` of conditions; `every` stops at the first false, `some` at the first true.
    pub evaluate_condition : Condition R → Option Bool
    evaluate_condition always = some true
    evaluate_condition malformed = none
    evaluate_condition (all cs) = every cs
    evaluate_condition (some_of cs) = some_one cs
    evaluate_condition (negate c) = negated (evaluate_condition c)
    evaluate_condition (leaf known test) = if known then test r else none
    evaluate_condition (custom test) = test r

    pub every : Conditions R → Option Bool
    every stop = some true
    every (also c cs) = elim (evaluate_condition c) [
      | none ↦ none
      | some b ↦ if b then every cs else some false
    ]

    pub some_one : Conditions R → Option Bool
    some_one stop = some false
    some_one (also c cs) = elim (evaluate_condition c) [
      | none ↦ none
      | some b ↦ if b then some true else some_one cs
    ]

module _ {R : Type 0} where
  unfoldable mutual
    -- `validate`: false where the source throws.
    pub validate : Condition R → Bool
    validate always = true
    validate malformed = false
    validate (all cs) = validate_all cs
    validate (some_of cs) = validate_all cs
    validate (negate c) = validate c
    validate (leaf known test) = known
    validate (custom test) = true

    pub validate_all : Conditions R → Bool
    validate_all stop = true
    validate_all (also c cs) = validate c && validate_all cs

pub data Effect : Type 0 where
  allow deny : Effect

pub data Strategy : Type 0 where
  deny_overrides allow_overrides first_applicable priority_order : Strategy

-- A policy; a scope of none is `*`.
pub record Policy (R : Type 0) : Type 0 where
  pub policy_id : ℕ
  pub scope : Option ℕ
  pub priority : ℕ
  pub condition : Condition R
  pub effect : Effect
  pub enabled : Bool

-- `createPolicy`, for a name, a scope and an effect that are given: no policy with a condition that is refused.
unfoldable pub create_policy : {R : Type 0} → Policy R → Option (Policy R)
create_policy spec = if validate spec.condition then some spec else none

abbrev pub applies_to_scope : Option ℕ → ℕ → Bool
applies_to_scope none scope = true
applies_to_scope (some s) scope = s == scope

-- What the decision says of a policy that it has looked at.
pub record Evaluation : Type 0 where
  pub policy_id : ℕ
  pub applicable : Bool
  pub failed : Bool

pub record Verdict (R : Type 0) : Type 0 where
  pub decision : Effect
  pub deciding_policy : Option (Policy R)
  pub evaluated : List Evaluation

abbrev pub is_applicable : Option Bool → Bool
is_applicable none = false
is_applicable (some b) = b

abbrev pub has_failed : Option Bool → Bool
has_failed none = true
has_failed (some b) = false

abbrev pub is_present {ℓ} : {A : Type ℓ} → Option A → Bool
is_present none = false
is_present (some a) = true

-- `if (p.effect === … && !first) first = p`.
abbrev note_deny : {R : Type 0} → Policy R → Effect → Option (Policy R) → Option (Policy R)
note_deny p deny none = some p
note_deny p _ first = first

abbrev note_allow : {R : Type 0} → Policy R → Effect → Option (Policy R) → Option (Policy R)
note_allow p allow none = some p
note_allow p _ first = first

abbrev verdict : {R : Type 0} → Effect → Option (Policy R) → List Evaluation → Verdict R
verdict effect p seen = record { decision = effect; deciding_policy = p; evaluated = seen }

module _ {R : Type 0} where
  -- What is pushed to `evaluated`.
  abbrev pub evaluation_of : Policy R → Option Bool → Evaluation
  evaluation_of p result = record {
    policy_id = p.policy_id;
    applicable = is_applicable result;
    failed = has_failed result;
  }

  -- `_ordered`: priority downwards, then id upwards; a stable insertion for the stable `sort`.
  abbrev pub goes_before : Policy R → Policy R → Bool
  goes_before a b =
      ltb b.priority a.priority || b.priority == a.priority && not (ltb b.policy_id a.policy_id)

  unfoldable pub insert_policy : Policy R → List (Policy R) → List (Policy R)
  insert_policy p [] = p ∷ []
  insert_policy p (q ∷ ps) =
      let rest = insert_policy p ps in if goes_before p q then p ∷ q ∷ ps else q ∷ rest

  unfoldable pub ordered : List (Policy R) → List (Policy R)
  ordered [] = []
  ordered (p ∷ ps) = insert_policy p (ordered ps)

  -- What the strategy decides at an applicable policy, with the first denying and allowing ones so far.
  unfoldable pub early_verdict :
      Strategy
      → Policy R
      → Option (Policy R)
      → Option (Policy R)
      → List Evaluation
      → Option (Verdict R)
  early_verdict first_applicable p fd fa seen = some (verdict p.effect (some p) seen)
  early_verdict priority_order p fd fa seen = some (verdict p.effect (some p) seen)
  early_verdict deny_overrides p (some d) fa seen = some (verdict deny (some d) seen)
  early_verdict allow_overrides p fd (some a) seen = some (verdict allow (some a) seen)
  early_verdict _ p fd fa seen = none

  -- What it decides after the last policy.
  unfoldable pub last_verdict :
      Strategy → Option (Policy R) → Option (Policy R) → List Evaluation → Verdict R
  last_verdict deny_overrides fd (some a) seen = verdict allow (some a) seen
  last_verdict allow_overrides (some d) fa seen = verdict deny (some d) seen
  last_verdict _ fd fa seen = verdict deny none seen

  -- The loop of `evaluate`.
  unfoldable pub decide_from :
      R
      → Strategy
      → Option (Policy R)
      → Option (Policy R)
      → List Evaluation
      → List (Policy R)
      → Verdict R
  decide_from r strategy fd fa seen [] = last_verdict strategy fd fa seen
  decide_from r strategy fd fa seen (p ∷ ps) =
      let result = evaluate_condition r p.condition in
      let now = seen ++ evaluation_of p result ∷ [] in
      let denying = note_deny p p.effect fd in
      let allowing = note_allow p p.effect fa in
      let passed = decide_from r strategy fd fa now ps in
      let noted = decide_from r strategy denying allowing now ps in
      if not (is_applicable result)
      then passed
      else elim (early_verdict strategy p denying allowing now) [ none ↦ noted | some v ↦ v ]

  -- `evaluate` of policies.
  unfoldable pub evaluate : List (Policy R) → ℕ → R → Strategy → Verdict R
  evaluate policies scope r strategy =
      decide_from r strategy none none []
        (ordered (keep (λ p. p.enabled && applies_to_scope p.scope scope) policies))

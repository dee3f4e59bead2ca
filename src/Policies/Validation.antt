-- ===== src/Policies/Validation.antt =====
-- What the validation of a condition (src/domain/policy/condition.js) rules out.
use oncall_backend_private.Prelude.{◌≡◌, refl, Bool, true, false, not, ◌&&◌, ◌||◌, some, arith}
use oncall_backend_private.Policies.{
  Condition, Conditions, always, malformed, all, some_of, negate, leaf, custom, stop, also,
  evaluate_condition, every, some_one, validate, validate_all, Policy, create_policy, is_present,
  is_applicable,
}

module _ {R : Type 0} (r : R) where
  unfoldable mutual
    -- Every test of the condition answers for the request.
    pub answers : Condition R → Bool
    answers (all cs) = answer cs
    answers (some_of cs) = answer cs
    answers (negate c) = answers c
    answers (leaf known test) = is_present (test r)
    answers (custom test) = is_present (test r)
    answers always = true
    answers malformed = true

    pub answer : Conditions R → Bool
    answer stop = true
    answer (also c cs) = answers c && answer cs

  mutual
    -- The truth of a condition, every part of it read.
    pub holds : Condition R → Bool
    holds (all cs) = hold_all cs
    holds (some_of cs) = hold_one cs
    holds (negate c) = not (holds c)
    holds (leaf known test) = is_applicable (test r)
    holds (custom test) = is_applicable (test r)
    holds always = true
    holds malformed = false

    pub hold_all : Conditions R → Bool
    hold_all stop = true
    hold_all (also c cs) = holds c && hold_all cs

    pub hold_one : Conditions R → Bool
    hold_one stop = false
    hold_one (also c cs) = holds c || hold_one cs

  mutual
    unfolding evaluate_condition every some_one validate validate_all answers answer holds hold_all
        hold_one

    valid-evaluates :
        (c : Condition R)
        → validate c ≡ true
        → answers c ≡ true
        → evaluate_condition r c ≡ some (holds c)
    valid-evaluates always v a = refl
    valid-evaluates malformed v a = ground (arith, v)
    valid-evaluates (all cs) v a = valid-every cs v a
    valid-evaluates (some_of cs) v a = valid-some cs v a
    valid-evaluates (negate c) v a = ground (arith, valid-evaluates c v a)
    valid-evaluates (leaf known test) v a = ground (arith, v, a)
    valid-evaluates (custom test) v a = ground (arith, a)

    valid-every :
        (cs : Conditions R)
        → validate_all cs ≡ true
        → answer cs ≡ true
        → every r cs ≡ some (hold_all cs)
    valid-every stop v a = refl
    valid-every (also c cs) v a = ground (arith, v, a, valid-evaluates c, valid-every cs)

    valid-some :
        (cs : Conditions R)
        → validate_all cs ≡ true
        → answer cs ≡ true
        → some_one r cs ≡ some (hold_one cs)
    valid-some stop v a = refl
    valid-some (also c cs) v a = ground (arith, v, a, valid-evaluates c, valid-some cs)

  -- The condition of a policy that was created, whose leaves and custom predicates answer for the request,
  -- evaluates without an error, to the truth of its composition.
  pub created-evaluates :
      (spec p : Policy R)
      → create_policy spec ≡ some p
      → answers p.condition ≡ true
      → evaluate_condition r p.condition ≡ some (holds p.condition)
  unfolding create_policy
  created-evaluates spec p h a = valid-evaluates p.condition (ground (arith, h)) a

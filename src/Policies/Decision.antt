-- ===== src/Policies/Decision.antt =====
-- What the strategies of src/domain/policy/decision.js decide.
use oncall_backend_private.Prelude.{
  ℕ, ◌≡◌, refl, ◌∙◌, Bool, true, false, not, ◌&&◌, ◌||◌, Option, none, some, List, [], ◌∷◌, ◌++◌,
  if◌then◌else◌, arith, keep, any,
}
use oncall_backend_private.Policies.{
  evaluate_condition, Effect, allow, deny, deny_overrides, allow_overrides, Policy,
  applies_to_scope, Evaluation, is_applicable, is_present, insert_policy, ordered, early_verdict,
  last_verdict, decide_from, evaluate, evaluation_of,
}

abbrev pub is_allow : Effect → Bool
is_allow allow = true
is_allow deny = false

module _ {R : Type 0} (r : R) where
  -- The condition holds, and the policy has the effect.
  abbrev pub matches : Policy R → Bool
  matches p = is_applicable (evaluate_condition r p.condition)

  abbrev pub allows : Policy R → Bool
  allows p = matches p && is_allow p.effect

  abbrev pub denies : Policy R → Bool
  denies p = matches p && not (is_allow p.effect)

  deny-from :
      (fa : Option (Policy R)) (seen : List Evaluation) (ps : List (Policy R))
      → (decide_from r deny_overrides none fa seen ps).decision
        ≡ (if any denies ps then deny else if is_present fa || any allows ps then allow else deny)
  unfolding decide_from early_verdict last_verdict
  deny-from none seen [] = refl
  deny-from (some a) seen [] = refl
  deny-from none seen (p ∷ ps) =
      let now = seen ++ evaluation_of p (evaluate_condition r p.condition) ∷ [] in
      ground (arith, deny-from none now ps, deny-from (some p) now ps)
  deny-from (some a) seen (p ∷ ps) =
      let now = seen ++ evaluation_of p (evaluate_condition r p.condition) ∷ [] in
      ground (arith, deny-from (some a) now ps)

  allow-from :
      (fd : Option (Policy R)) (seen : List Evaluation) (ps : List (Policy R))
      → (decide_from r allow_overrides fd none seen ps).decision
        ≡ (if any allows ps then allow else deny)
  unfolding decide_from early_verdict last_verdict
  allow-from none seen [] = refl
  allow-from (some a) seen [] = refl
  allow-from none seen (p ∷ ps) =
      let now = seen ++ evaluation_of p (evaluate_condition r p.condition) ∷ [] in
      ground (arith, allow-from none now ps, allow-from (some p) now ps)
  allow-from (some d) seen (p ∷ ps) =
      let now = seen ++ evaluation_of p (evaluate_condition r p.condition) ∷ [] in
      ground (arith, allow-from (some d) now ps)

module _ {R : Type 0} where
  any-insert :
      (f : Policy R → Bool) (p : Policy R) (ps : List (Policy R))
      → any f (insert_policy p ps) ≡ (f p || any f ps)
  unfolding insert_policy
  any-insert f p [] = refl
  any-insert f p (q ∷ ps) = ground (arith, any-insert f p ps)

  any-ordered : (f : Policy R → Bool) (ps : List (Policy R)) → any f (ordered ps) ≡ any f ps
  unfolding ordered
  any-ordered f [] = refl
  any-ordered f (p ∷ ps) = ground (arith, any-insert f p (ordered ps), any-ordered f ps)

  any-keep :
      (f g : Policy R → Bool) (ps : List (Policy R)) → any f (keep g ps) ≡ any (λ p. g p && f p) ps
  unfolding keep
  any-keep f g [] = refl
  any-keep f g (p ∷ ps) = ground (arith, any-keep f g ps)

  -- A policy that is enabled and meets the scope.
  abbrev pub concerns : ℕ → Policy R → Bool
  concerns scope p = p.enabled && applies_to_scope p.scope scope

  -- Under deny-overrides a request is allowed exactly if a policy that concerns it allows it and none denies it, and
  -- under allow-overrides exactly if one allows it, in whatever order the policies are given; without an
  -- applicable policy both deny.
  pub overrides_iff :
      (policies : List (Policy R)) (scope : ℕ) (r : R)
      → let allowed = any (λ p. concerns scope p && allows r p) policies in
        let denied = any (λ p. concerns scope p && denies r p) policies in
        ((evaluate policies scope r deny_overrides).decision
          ≡ (if allowed && not denied then allow else deny))
        × ((evaluate policies scope r allow_overrides).decision ≡ (if allowed then allow else deny))
  unfolding evaluate
  overrides_iff policies scope r =
      let ps = keep (concerns scope) policies in
      let allowing = any-ordered (allows r) ps ∙ any-keep (allows r) (concerns scope) policies in
      let denying = any-ordered (denies r) ps ∙ any-keep (denies r) (concerns scope) policies in
      (
        ground (arith, deny-from r none [] (ordered ps), allowing, denying),
        ground (arith, allow-from r none [] (ordered ps), allowing),
      )

-- ===== src/Extensions/Resolver/Resolved.antt =====
-- What `resolve` of src/application/extensions/dependencyResolver.js answers.
use oncall_backend_private.Prelude.{
  ℕ, ◌≡◌, ◌≢◌, refl, Bool, true, ◌&&◌, Option, some, List, [], ◌∷◌, ◌++◌, length, includes, arith,
  inl, inr, ◌⊎◌, nat_key, ==_refl,
}
use oncall_backend_private.Extensions.Resolver.{
  Manifest, Platform, Registry, ResolveError, manifests_by_id, compatibility_errors,
  all_dependency_errors, pushed, keys_of, load_order, resolution, cycle, resolve,
}
use oncall_backend_private.Extensions.Resolver.Order.{Visit-cases, load_order-answers}
use oncall_backend_private.Extensions.Resolver.Loads.{is_load_order, search-good}

-- Every id of a list is loaded.
pub loads_all : List ℕ → List ℕ → Bool
loads_all order [] = true
loads_all order (k ∷ ks) = includes order k && loads_all order ks

loads_all_of :
    (order ks : List ℕ)
    → ((k : ℕ) → includes ks k ≡ true → includes order k ≡ true)
    → loads_all order ks ≡ true
unfolding loads_all includes
loads_all_of order [] h = refl
loads_all_of order (k ∷ ks) h =
    let rest : (l : ℕ) → includes ks l ≡ true → includes order l ≡ true =
      λ l e. h l (ground (arith, e)) in
    ground (arith, h k (ground (arith, ==_refl k)), loads_all_of order ks rest)

-- An order of the registry is right: each id stands after its known dependencies, and none is left out.
load_order-good :
    (ids : Registry) (order : List ℕ)
    → load_order ids ≡ pushed order
    → (is_load_order ids [] order && loads_all order (keys_of ids)) ≡ true
unfolding load_order is_load_order
load_order-good ids order h =
    let (kept, every) = search-good ids (length (keys_of ids)) [] (keys_of ids) order h in
    ground (arith, kept.1 refl, loads_all_of order (keys_of ids) every)

abbrev pub IsLoadable : Registry → List Manifest → List ℕ → Type 0
IsLoadable ids ms order =
    (all_dependency_errors ids ms ≡ [])
    × ((is_load_order ids [] order && loads_all order (keys_of ids)) ≡ true)

append-nil_left : (xs ys : List ResolveError) → xs ++ ys ≡ [] → (xs ≡ []) × (ys ≡ [])
append-nil_left [] ys h = (refl, h)
append-nil_left (x ∷ xs) ys h = absurd (ground (arith, h))

-- The answer for an order that the search has found.
resolution-cases :
    (ids : Registry) (ms : List Manifest) (duplicates refused : List ResolveError) (order : List ℕ)
    (errors : List ResolveError)
    → duplicates ++ refused ++ all_dependency_errors ids ms ≡ errors
    → (is_load_order ids [] order && loads_all order (keys_of ids)) ≡ true
    → (answer : List ℕ) × (found : List ResolveError) × (resolution errors order
        ≡ some (answer, found))
      × (((answer ≡ []) × (found ≢ [])) ⊎ ((found ≡ []) × IsLoadable ids ms answer))
resolution-cases ids ms duplicates refused order [] h g = (
  order,
  [],
  refl,
  inr (refl, ((append-nil_left (duplicates ++ refused) (all_dependency_errors ids ms) h).1, g)),
)
resolution-cases ids ms duplicates refused order (e ∷ errors) h g =
    ([], e ∷ errors, refl, inl (refl, λ n. ground (arith, n)))

added-error : (xs : List ResolveError) (e : ResolveError) → xs ++ e ∷ [] ≢ []
added-error [] e = λ n. ground (arith, n)
added-error (x ∷ xs) e = λ n. ground (arith, n)

resolution-error :
    (errors : List ResolveError) → errors ≢ [] → resolution errors [] ≡ some ([], errors)
resolution-error [] n = absurd (n refl)
resolution-error (e ∷ errors) n = refl

abbrev pub IsAnswered : List Manifest → Option (List ℕ × List ResolveError) → Type 0
IsAnswered ms answer =
    (order : List ℕ) × (errors : List ResolveError) × (answer ≡ some (order, errors))
    × (((order ≡ []) × (errors ≢ []))
        ⊎ ((errors ≡ []) × IsLoadable (manifests_by_id [] ms).0 ms order))

-- Where the compatibility check of no manifest throws, the resolver always answers. Either it answers errors and
-- no order, or it answers no errors and an order of the manifests: no dependency of theirs is then missing or of
-- another version, each id stands after its known dependencies, and no id is left out.
pub resolve-IsAnswered :
    (ms : List Manifest) (env : Platform) (refused : List ResolveError)
    → compatibility_errors env ms ≡ some refused
    → IsAnswered ms (resolve ms env)
unfolding resolve
resolve-IsAnswered ms env refused h =
    let ids = (manifests_by_id [] ms).0 in
    let duplicates = (manifests_by_id [] ms).1 in
    let errors = duplicates ++ refused ++ all_dependency_errors ids ms in
    elim (Visit-cases (load_order ids)) as (λ _. IsAnswered ms (resolve ms env)) [
      | inl (order, e) ↦
          let (answer, found, s, either) =
            resolution-cases ids ms duplicates refused order errors refl
              (load_order-good ids order e) in
          (answer, found, ground (arith, h, e, s), either)
      | inr (inl (path, e)) ↦ (
        [],
        errors ++ cycle path ∷ [],
        ground (arith, h, e, resolution-error _ (added-error errors (cycle path))),
        inl (refl, added-error errors (cycle path)),
      )
      | inr (inr e) ↦ absurd (ground (arith, e, load_order-answers ids))
    ]

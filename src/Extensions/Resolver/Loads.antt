-- ===== src/Extensions/Resolver/Loads.antt =====
-- The load order of src/application/extensions/dependencyResolver.js puts dependencies first.
use mathlib.Core.List.{append-nil, append_assoc}
use oncall_backend_private.Prelude.{
  ℕ, zero, suc, ◌≡◌, refl, ap, subst, Bool, true, not, ◌&&◌, ◌||◌, List, [], ◌∷◌, ◌++◌, ◌==◌,
  includes, includes-append, arith, nat_key, lookup, ==_refl, ==_iff, Bool-cases, inl, inr,
}
use oncall_backend_private.Extensions.Resolver.{
  Registry, knows, dependencies_of, Visit, pushed, walk, dfs, search_from,
}
use oncall_backend_private.Extensions.Resolver.Order.{Visit-cases}

-- What a search that answers an order has kept of the order before: every id is still there, and a visit of an
-- id with its known dependencies in front of it is added at the end.
abbrev Extends : List ℕ → List ℕ → Type 0
Extends before after = (i : ℕ) → includes before i ≡ true → includes after i ≡ true

-- The known dependencies of an id are all loaded.
unfoldable pub is_ready : Registry → List ℕ → List ℕ → Bool
is_ready ids loaded [] = true
is_ready ids loaded (d ∷ ds) = (not (knows ids d) || includes loaded d) && is_ready ids loaded ds

-- Each id is loaded after its known dependencies.
unfoldable pub is_load_order : Registry → List ℕ → List ℕ → Bool
is_load_order ids loaded [] = true
is_load_order ids loaded (id ∷ rest) =
    is_ready ids loaded (dependencies_of (lookup id ids))
    && is_load_order ids (loaded ++ id ∷ []) rest

ready-later :
    (ids : Registry) (before after ds : List ℕ)
    → Extends before after
    → is_ready ids before ds ≡ true
    → is_ready ids after ds ≡ true
unfolding is_ready
ready-later ids before after [] x h = h
ready-later ids before after (d ∷ ds) x h =
    ground (arith, h, x d, ready-later ids before after ds x)

load_order-append :
    (ids : Registry) (loaded xs : List ℕ) (id : ℕ)
    → is_load_order ids loaded (xs ++ id ∷ []) ≡ (
        is_load_order ids loaded xs
        && is_ready ids (loaded ++ xs) (dependencies_of (lookup id ids)))
unfolding is_load_order
load_order-append ids loaded [] id =
    ground (arith, ap (λ x. is_ready ids x (dependencies_of (lookup id ids))) (append-nil loaded))
load_order-append ids loaded (x ∷ xs) id = ground (
  arith,
  load_order-append ids (loaded ++ x ∷ []) xs id,
  ap (λ y. is_ready ids y (dependencies_of (lookup id ids))) (append_assoc loaded (x ∷ []) xs),
)

includes_self : (k : ℕ) → includes (k ∷ []) k ≡ true
unfolding includes
includes_self k = ground (arith, ==_refl k)

includes-cons :
    (k : ℕ) (ks o : List ℕ)
    → includes o k ≡ true
    → ((l : ℕ) → includes ks l ≡ true → includes o l ≡ true)
    → (l : ℕ) → includes (k ∷ ks) l ≡ true
    → includes o l ≡ true
unfolding includes
includes-cons k ks o h rest l e = elim (Bool-cases (k == l)) [
  | inl s ↦ subst (λ x. includes o x ≡ true) ((==_iff k l).0 s) h
  | inr s ↦ rest l (ground (arith, s, e))
]

module _ (ids : Registry) where
  -- What a part of the search does to the order, and what it has loaded.
  abbrev IsKept : List ℕ → List ℕ → Type 0
  IsKept order o =
      Extends order o × (is_load_order ids [] order ≡ true → is_load_order ids [] o ≡ true)

  walk-good :
      (visit : List ℕ → List ℕ → ℕ → Visit)
      (good : (stack order : List ℕ) (d : ℕ) (o : List ℕ)
        → visit stack order d ≡ pushed o
        → IsKept order o × (includes o d ≡ true))
      (stack order ds o : List ℕ)
      → walk ids visit stack order ds ≡ pushed o
      → IsKept order o × (is_ready ids o ds ≡ true)
  unfolding walk is_ready
  walk-good visit good stack order [] o h =
      let same : order ≡ o = ground (arith, h) in
      (
        (
          λ i e. subst (λ x. includes x i ≡ true) same e,
          λ e. subst (λ x. is_load_order ids [] x ≡ true) same e,
        ),
        refl,
      )
  walk-good visit good stack order (d ∷ ds) o h = elim (Bool-cases (knows ids d)) [
    | inr k ↦
        let (kept, ready) = walk-good visit good stack order ds o (ground (arith, k, h)) in
        (kept, ground (arith, k, ready))
    | inl k ↦ elim (Bool-cases (includes stack d)) [
      | inl g ↦ absurd (ground (arith, k, g, h))
      | inr g ↦ elim (Bool-cases (includes order d)) [
        | inl b ↦
            let (kept, ready) =
              walk-good visit good stack order ds o (ground (arith, k, g, b, h)) in
            (kept, ground (arith, kept.0 d b, ready))
        | inr b ↦ elim (Visit-cases (visit (stack ++ d ∷ []) order d)) [
          | inl (o1, e) ↦
              let (first, has) = good (stack ++ d ∷ []) order d o1 e in
              let (kept, ready) =
                walk-good visit good stack o1 ds o (ground (arith, k, g, b, e, h)) in
              (
                (λ i p. kept.0 i (first.0 i p), λ l. kept.1 (first.1 l)),
                ground (arith, kept.0 d has, ready),
              )
          | inr (inl (path, e)) ↦ absurd (ground (arith, k, g, b, e, h))
          | inr (inr e) ↦ absurd (ground (arith, k, g, b, e, h))
        ]
      ]
    ]
  ]

  dfs-good :
      (fuel : ℕ) (stack order : List ℕ) (id : ℕ) (o : List ℕ)
      → dfs fuel ids stack order id ≡ pushed o
      → IsKept order o × (includes o id ≡ true)
  unfolding dfs
  dfs-good zero stack order id o h = absurd (ground (arith, h))
  dfs-good (suc fuel) stack order id o h =
      elim (Visit-cases (walk ids (dfs fuel ids) stack order (dependencies_of (lookup id ids))))
        as (λ _. IsKept order o × (includes o id ≡ true)) [
          | inl (o1, e) ↦
              let (kept, ready) =
                walk-good (dfs fuel ids) (dfs-good fuel) stack order
                  (dependencies_of (lookup id ids)) o1 e in
              let last : o1 ++ id ∷ [] ≡ o = ground (arith, e, h) in
              subst (λ x. IsKept order x × (includes x id ≡ true)) last
                (
                  (
                    λ i p. ground (arith, kept.0 i p, includes-append o1 (id ∷ []) i),
                    λ l. ground (arith, kept.1 l, load_order-append ids [] o1 id, ready),
                  ),
                  ground (arith, includes-append o1 (id ∷ []) id, includes_self id),
                )
          | inr (inl (path, e)) ↦ absurd (ground (arith, e, h))
          | inr (inr e) ↦ absurd (ground (arith, e, h))
        ]

  pub search-good :
      (fuel : ℕ) (order ks o : List ℕ)
      → search_from fuel ids order ks ≡ pushed o
      → IsKept order o × ((k : ℕ) → includes ks k ≡ true → includes o k ≡ true)
  unfolding search_from includes
  search-good fuel order [] o h =
      let same : order ≡ o = ground (arith, h) in
      (
        (
          λ i e. subst (λ x. includes x i ≡ true) same e,
          λ e. subst (λ x. is_load_order ids [] x ≡ true) same e,
        ),
        λ k e. ground (arith, e),
      )
  search-good fuel order (k ∷ ks) o h =
      elim (Bool-cases (includes order k))
        as (λ _. IsKept order o × ((l : ℕ) → includes (k ∷ ks) l ≡ true → includes o l ≡ true)) [
          | inl b ↦
              let (kept, every) = search-good fuel order ks o (ground (arith, b, h)) in
              (kept, includes-cons k ks o (kept.0 k b) every)
          | inr b ↦
              elim (Visit-cases (dfs fuel ids (k ∷ []) order k))
                as (λ _.
                  IsKept order o × ((l : ℕ) → includes (k ∷ ks) l ≡ true → includes o l ≡ true)) [
                    | inl (o1, e) ↦
                        let (first, has) = dfs-good fuel (k ∷ []) order k o1 e in
                        let (kept, every) = search-good fuel o1 ks o (ground (arith, b, e, h)) in
                        (
                          (λ i p. kept.0 i (first.0 i p), λ l. kept.1 (first.1 l)),
                          includes-cons k ks o (kept.0 k has) every,
                        )
                    | inr (inl (path, e)) ↦ absurd (ground (arith, b, e, h))
                    | inr (inr e) ↦ absurd (ground (arith, b, e, h))
                  ]
        ]

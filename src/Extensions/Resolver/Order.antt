-- ===== src/Extensions/Resolver/Order.antt =====
-- The fuel of the search of src/application/extensions/dependencyResolver.js is enough.
use oncall_backend_private.Prelude.{
  ℕ, zero, suc, ◌≤◌, ◌<◌, ◌≡◌, refl, sym, ap, subst, Bool, true, false, List, [], ◌∷◌, ◌++◌, ◌==◌,
  length, includes, includes-append, if◌then◌else◌, arith, nat_key, lookup, ==_refl, ==_iff,
  Bool-cases, inl, inr, ◌⊎◌,
}
use oncall_backend_private.Extensions.Resolver.{
  Registry, knows, dependencies_of, Visit, pushed, cyclic, spent, walk, dfs, search_from, keys_of,
  load_order,
}

-- The ids that are not on the stack.
pub free : List ℕ → List ℕ → ℕ
free stack [] = 0
free stack (k ∷ ks) = let rest = free stack ks in if includes stack k then rest else suc rest

free-push_le : (stack ks : List ℕ) (d : ℕ) → free (stack ++ d ∷ []) ks ≤ free stack ks
unfolding free includes
free-push_le stack [] d = omega arith
free-push_le stack (k ∷ ks) d =
    ground (arith, includes-append stack (d ∷ []) k, free-push_le stack ks d)

free-push :
    (stack ks : List ℕ) (d : ℕ)
    → includes stack d ≡ false
    → includes ks d ≡ true
    → free (stack ++ d ∷ []) ks < free stack ks
unfolding free includes
free-push stack [] d h g = ground (arith, g)
free-push stack (k ∷ ks) d h g = elim (Bool-cases (k == d)) [
  | inl e ↦
      let same = (==_iff k d).0 e in
      ground (
        arith,
        e,
        subst (λ x. includes stack x ≡ false) (sym same) h,
        subst (λ x. (x == k) ≡ true) same (==_refl k),
        includes-append stack (d ∷ []) k,
        free-push_le stack ks d,
      )
  | inr e ↦ ground (arith, e, h, g, includes-append stack (d ∷ []) k, free-push stack ks d h)
]

knows-key : (ids : Registry) (d : ℕ) → knows ids d ≡ true → includes (keys_of ids) d ≡ true
unfolding lookup includes
knows-key [] d h = ground (arith, h)
knows-key (e ∷ ids) d h = ground (arith, h, knows-key ids d)

abbrev pub is_spent : Visit → Bool
is_spent spent = true
is_spent _ = false

pub Visit-cases :
    (v : Visit)
    → ((o : List ℕ) × (v ≡ pushed o)) ⊎ (((path : List ℕ) × (v ≡ cyclic path)) ⊎ (v ≡ spent))
Visit-cases (pushed o) = inl (o, refl)
Visit-cases (cyclic path) = inr (inl (path, refl))
Visit-cases spent = inr (inr refl)

module _ (ids : Registry) where
  walk-answers :
      (visit : List ℕ → List ℕ → ℕ → Visit) (stack order ds : List ℕ)
      → ((o : List ℕ) (d : ℕ)
          → knows ids d ≡ true
          → includes stack d ≡ false
          → is_spent (visit (stack ++ d ∷ []) o d) ≡ false)
      → is_spent (walk ids visit stack order ds) ≡ false
  unfolding walk
  walk-answers visit stack order [] h = refl
  walk-answers visit stack order (d ∷ ds) h = elim (Visit-cases (visit (stack ++ d ∷ []) order d)) [
    | inl (o, e) ↦
        ground (arith, e, walk-answers visit stack order ds h, walk-answers visit stack o ds h)
    | inr (inl (path, e)) ↦ ground (arith, e, walk-answers visit stack order ds h)
    | inr (inr e) ↦ ground (arith, e, h order d, walk-answers visit stack order ds h)
  ]

  pub dfs-answers :
      (fuel : ℕ) (stack order : List ℕ) (id : ℕ)
      → free stack (keys_of ids) < fuel
      → is_spent (dfs fuel ids stack order id) ≡ false
  unfolding dfs
  dfs-answers zero stack order id h = ground (arith, h)
  dfs-answers (suc fuel) stack order id h = ground (
    arith,
    walk-answers (dfs fuel ids) stack order (dependencies_of (lookup id ids)) (λ o d k n.
        dfs-answers fuel (stack ++ d ∷ []) o d
          (omega (arith, h, free-push stack (keys_of ids) d n (knows-key ids d k)))),
  )

  search-answers :
      (fuel : ℕ) (order ks : List ℕ)
      → ((k : ℕ) → includes ks k ≡ true → free (k ∷ []) (keys_of ids) < fuel)
      → is_spent (search_from fuel ids order ks) ≡ false
  unfolding search_from includes
  search-answers fuel order [] h = refl
  search-answers fuel order (k ∷ ks) h =
      let rest : (l : ℕ) → includes ks l ≡ true → free (l ∷ []) (keys_of ids) < fuel =
        λ l e. h l (ground (arith, e)) in
      let own = dfs-answers fuel (k ∷ []) order k (h k (ground (arith, ==_refl k))) in
      elim (Visit-cases (dfs fuel ids (k ∷ []) order k)) [
        | inl (o, e) ↦
            ground (arith, e, search-answers fuel order ks rest, search-answers fuel o ks rest)
        | inr (inl (path, e)) ↦ ground (arith, e, search-answers fuel order ks rest)
        | inr (inr e) ↦ ground (arith, e, own)
      ]

  free-all : (ks : List ℕ) → free [] ks ≡ length ks
  unfolding free includes
  free-all [] = refl
  free-all (k ∷ ks) = ap suc (free-all ks)

  -- The search always ends with an order or a cycle.
  pub load_order-answers : is_spent (load_order ids) ≡ false
  unfolding load_order includes
  load_order-answers =
      search-answers (length (keys_of ids)) [] (keys_of ids)
        (λ k e. omega (arith, free-push [] (keys_of ids) k refl e, free-all (keys_of ids)))

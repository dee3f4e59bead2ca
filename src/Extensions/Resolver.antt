-- ===== src/Extensions/Resolver.antt =====
-- The dependency resolver of src/application/extensions/dependencyResolver.js, with the compatibility check
-- of src/domain/extensions/integrity.js. An extension's id is a number. The colours of the search are kept
-- as the source's lists: grey ids are those on the stack, black ids those in the order.
pub mod Order
pub mod Loads
pub mod Resolved
use oncall_backend_private.Prelude.{
  ℕ, zero, suc, Bool, true, false, not, ◌&&◌, ◌||◌, Option, none, some, List, [], ◌∷◌, ◌++◌, ◌==◌,
  map, length, includes, if◌then◌else◌, nat_key, lookup, insert,
}
use oncall_backend_private.Extensions.Semver.{Text, Sign, is_below, compare, satisfies}

pub record Manifest : Type 0 where
  pub id : ℕ
  pub version : Text
  pub api_version : Text
  pub minimum_platform_version : Text
  pub dependencies : List (ℕ × Text)

pub record Platform : Type 0 where
  pub platform_version : Option Text
  pub platform_api_range : Option Text

pub data ResolveError : Type 0 where
  duplicate api_refused platform_refused : ℕ → ResolveError
  missing unsatisfied : ℕ → ℕ → ResolveError
  cycle : List ℕ → ResolveError

-- An empty text counts as no text.
abbrev range_or_any : Option Text → Text
range_or_any none = 42 ∷ []
range_or_any (some []) = 42 ∷ []
range_or_any (some (c ∷ r)) = c ∷ r

abbrev given : Option Text → Option Text
given none = none
given (some []) = none
given (some (c ∷ v)) = some (c ∷ v)

-- `verifyCompatibility`: none where `compare` throws.
unfoldable pub verify_compatibility : Manifest → Platform → Option (List ResolveError)
verify_compatibility m env =
    let api =
      if satisfies m.api_version (range_or_any env.platform_api_range)
      then []
      else api_refused m.id ∷ [] in
    elim (given env.platform_version) [
      | none ↦ some api
      | some v ↦ elim (compare v m.minimum_platform_version) [
        | none ↦ none
        | some c ↦ some (if is_below c then api ++ platform_refused m.id ∷ [] else api)
      ]
    ]

abbrev pub Registry : Type 0
Registry = List (ℕ × Manifest)

abbrev is_known : Option Manifest → Bool
is_known none = false
is_known (some m) = true

-- `byId`, where the last of two manifests with one id stays, and the errors for those.
unfoldable pub manifests_by_id : Registry → List Manifest → Registry × List ResolveError
manifests_by_id ids [] = (ids, [])
manifests_by_id ids (m ∷ ms) =
    let (all, errors) = manifests_by_id (insert m.id m ids) ms in
    (all, if is_known (lookup m.id ids) then duplicate m.id ∷ errors else errors)

unfoldable pub compatibility_errors : Platform → List Manifest → Option (List ResolveError)
compatibility_errors env [] = some []
compatibility_errors env (m ∷ ms) = elim (verify_compatibility m env) [
  | none ↦ none
  | some first ↦ elim (compatibility_errors env ms) [
    | none ↦ none
    | some rest ↦ some (first ++ rest)
  ]
]

-- The dependencies of one manifest, and of all.
unfoldable pub dependency_errors : Registry → ℕ → List (ℕ × Text) → List ResolveError
dependency_errors ids id [] = []
dependency_errors ids id ((dep_id, range) ∷ deps) =
    let rest = dependency_errors ids id deps in
    elim (lookup dep_id ids) [
      | none ↦ missing id dep_id ∷ rest
      | some dep ↦ if satisfies dep.version range then rest else unsatisfied id dep_id ∷ rest
    ]

unfoldable pub all_dependency_errors : Registry → List Manifest → List ResolveError
all_dependency_errors ids [] = []
all_dependency_errors ids (m ∷ ms) =
    dependency_errors ids m.id m.dependencies ++ all_dependency_errors ids ms

-- The keys of a manifest's dependencies.
abbrev pub dependencies_of : Option Manifest → List ℕ
dependencies_of none = []
dependencies_of (some m) = map (λ d. d.0) m.dependencies

-- `[...stack, depId].slice(stack.indexOf(depId))`.
unfoldable pub cycle_path : List ℕ → ℕ → List ℕ
cycle_path [] d = d ∷ []
cycle_path (x ∷ stack) d = if x == d then x ∷ stack ++ d ∷ [] else cycle_path stack d

-- The end of a visit: the order so far, a cycle, or no fuel.
pub data Visit : Type 0 where
  pushed : List ℕ → Visit
  cyclic : List ℕ → Visit
  spent : Visit

abbrev pub knows : Registry → ℕ → Bool
knows ids d = is_known (lookup d ids)

-- The loop of `dfs` over the dependencies.
unfoldable pub walk : Registry → (List ℕ → List ℕ → ℕ → Visit) → List ℕ → List ℕ → List ℕ → Visit
walk ids visit stack order [] = pushed order
walk ids visit stack order (d ∷ ds) =
    let skipped = walk ids visit stack order ds in
    let visited = elim (visit (stack ++ d ∷ []) order d) as (λ _. Visit) [
      | pushed o ↦ walk ids visit stack o ds
      | cyclic path ↦ cyclic path
      | spent ↦ spent
    ] in
    if not (knows ids d)
    then skipped
    else if includes stack d
    then cyclic (cycle_path stack d)
    else if includes order d
    then skipped
    else visited

-- `dfs`, on fuel.
unfoldable pub dfs : ℕ → Registry → List ℕ → List ℕ → ℕ → Visit
dfs zero ids stack order id = spent
dfs (suc fuel) ids stack order id =
    elim (walk ids (dfs fuel ids) stack order (dependencies_of (lookup id ids))) [
      | pushed o ↦ pushed (o ++ id ∷ [])
      | cyclic path ↦ cyclic path
      | spent ↦ spent
    ]

-- The loop over the ids, up to a cycle.
unfoldable pub search_from : ℕ → Registry → List ℕ → List ℕ → Visit
search_from fuel ids order [] = pushed order
search_from fuel ids order (k ∷ ks) =
    let skipped = search_from fuel ids order ks in
    let visited = elim (dfs fuel ids (k ∷ []) order k) as (λ _. Visit) [
      | pushed o ↦ search_from fuel ids o ks
      | cyclic path ↦ cyclic path
      | spent ↦ spent
    ] in
    if includes order k then skipped else visited

abbrev pub keys_of : Registry → List ℕ
keys_of ids = map (λ e. e.0) ids

-- The search on as much fuel as there are ids.
unfoldable pub load_order : Registry → Visit
load_order ids = search_from (length (keys_of ids)) ids [] (keys_of ids)

abbrev pub resolution : List ResolveError → List ℕ → Option (List ℕ × List ResolveError)
resolution [] order = some (order, [])
resolution (e ∷ errors) order = some ([], e ∷ errors)

-- `resolve`: an order, or errors; none where the check of compatibility throws.
unfoldable pub resolve : List Manifest → Platform → Option (List ℕ × List ResolveError)
resolve manifests env =
    let (ids, duplicates) = manifests_by_id [] manifests in
    elim (compatibility_errors env manifests) [
      | none ↦ none
      | some refused ↦
          let errors = duplicates ++ refused ++ all_dependency_errors ids manifests in
          elim (load_order ids) [
            | pushed order ↦ resolution errors order
            | cyclic path ↦ resolution (errors ++ cycle path ∷ []) []
            | spent ↦ none
          ]
    ]

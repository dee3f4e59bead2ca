-- ===== src/Trips/Matching/Nearest.antt =====
-- Which driver `findNearestDriver` of src/services/driverMatcher.js returns.
use oncall_backend_private.Prelude.{
  ℕ, ◌≤◌, ◌≡◌, refl, sym, subst, Bool, true, false, ◌&&◌, Option, none, some, List, [], ◌∷◌, ◌++◌,
  ◌==◌, leb, if◌then◌else◌, any, All, All-append, All-imply, arith,
}
use oncall_backend_private.Schema.{ℤ, Driver, Taxi, Db}
use oncall_backend_private.Trips.Rules.{coord_truthy}
use oncall_backend_private.Trips.Settlement.{Env}
use oncall_backend_private.Trips.Matching.{
  is_eligible, serves, Candidate, rows_of_driver, online_drivers, candidate_distance, closer,
  nearest, first_row, find_nearest_driver,
}

-- A driver that may be asked: eligible, with an online taxi.
abbrev pub is_free : List ℕ → List Taxi → Driver → Bool
is_free excluded taxis d = is_eligible excluded d && any (serves d) taxis

-- Whether a driver of that id, eligible, is among the drivers.
abbrev pub is_left : List ℕ → List Driver → ℕ → Bool
is_left excluded drivers n = any (λ d. is_eligible excluded d && d.id == n) drivers

abbrev pub IsFound : List ℕ → List Driver → List Taxi → Candidate → Type 0
IsFound excluded drivers taxis c =
    (is_free excluded taxis c.driver ≡ true) × (is_left excluded drivers c.driver.id ≡ true)

-- A list that a condition may have extended.
pub All-if {ℓ κ} :
    {A : Type ℓ} (P : A → Type κ) (b : Bool) (xs ys : List A)
    → (b ≡ true → All P xs)
    → All P ys
    → All P (if b then xs else ys)
All-if P true xs ys h k = h refl
All-if P false xs ys h k = k

rows_of_driver-All :
    (d : Driver) (ts : List Taxi)
    → All (λ c. (c.driver ≡ d) × (any (serves d) ts ≡ true)) (rows_of_driver d ts)
unfolding rows_of_driver
rows_of_driver-All d [] = tt
rows_of_driver-All d (t ∷ ts) =
    let tail =
      All-imply (λ c. (c.driver ≡ d) × (any (serves d) ts ≡ true))
        (λ c. (c.driver ≡ d) × (any (serves d) (t ∷ ts) ≡ true)) (rows_of_driver d ts)
        (λ c h. (h.0, ground (arith, h.1))) (rows_of_driver-All d ts) in
    All-if _ (serves d t) _ _ (λ e. ((refl, ground (arith, e)), tail)) tail

online_drivers-All :
    (ex : List ℕ) (ds : List Driver) (ts : List Taxi)
    → All (IsFound ex ds ts) (online_drivers ex ds ts)
unfolding online_drivers
online_drivers-All ex [] ts = tt
online_drivers-All ex (d ∷ ds) ts =
    let tail =
      All-imply (IsFound ex ds ts) (IsFound ex (d ∷ ds) ts) (online_drivers ex ds ts)
        (λ c h. (h.0, ground (arith, h.1))) (online_drivers-All ex ds ts) in
    All-if _ (is_eligible ex d) _ _ (λ e. All-append _ (rows_of_driver d ts) _ (here e) tail) tail
  where
    here : is_eligible ex d ≡ true → All (IsFound ex (d ∷ ds) ts) (rows_of_driver d ts)
    here e =
        All-imply (λ c. (c.driver ≡ d) × (any (serves d) ts ≡ true)) (IsFound ex (d ∷ ds) ts)
          (rows_of_driver d ts) (λ c h. (ground (arith, e, h.0, h.1), ground (arith, e, h.0)))
          (rows_of_driver-All d ts)

closer-All {κ} :
    (P : Candidate → Type κ) (m : Candidate → ℕ) (x : Candidate) (o : Option Candidate)
    → P x
    → ((b : Candidate) → o ≡ some b → P b)
    → P (closer m x o)
unfolding closer
closer-All P m x none hx h = hx
closer-All P m x (some b) hx h = pick (leb (m x) (m b))
  where
    pick : (q : Bool) → P (if q then x else b)
    pick true = hx
    pick false = h b refl

-- The first of the least is one of the rows.
nearest-All {κ} :
    (P : Candidate → Type κ) (m : Candidate → ℕ) (cs : List Candidate) (c : Candidate)
    → All P cs
    → nearest m cs ≡ some c
    → P c
unfolding nearest
nearest-All P m [] c h e = ground arith
nearest-All P m (x ∷ cs) c (hx, h) e =
    subst P (ground (arith, e)) (closer-All P m x (nearest m cs) hx (λ b. nearest-All P m cs b h))

closer-least :
    (m : Candidate → ℕ) (x : Candidate) (o : Option Candidate)
    → (m (closer m x o) ≤ m x) × ((b : Candidate) → o ≡ some b → m (closer m x o) ≤ m b)
unfolding closer
closer-least m x none = (ground arith, λ b e. ground (arith, e))
closer-least m x (some b) = (ground arith, λ c e. ground (arith, e))

nearest-none : (m : Candidate → ℕ) (cs : List Candidate) → nearest m cs ≡ none → cs ≡ []
unfolding nearest
nearest-none m [] e = refl
nearest-none m (x ∷ cs) e = ground arith

nearest-least :
    (m : Candidate → ℕ) (cs : List Candidate) (c : Candidate)
    → nearest m cs ≡ some c
    → All (λ x. m c ≤ m x) cs
unfolding nearest
nearest-least m [] c e = tt
nearest-least m (x ∷ cs) c e = rest (nearest m cs) refl (λ b. nearest-least m cs b)
  where
    first : closer m x (nearest m cs) ≡ c
    first = ground (arith, e)

    bound : (y : ℕ) → m (closer m x (nearest m cs)) ≤ y → m c ≤ y
    bound y = subst (λ k. m k ≤ y) first

    rest :
        (o : Option Candidate)
        → nearest m cs ≡ o
        → ((b : Candidate) → nearest m cs ≡ some b → All (λ y. m b ≤ m y) cs)
        → (m c ≤ m x) × All (λ y. m c ≤ m y) cs
    rest none q h = (
      bound (m x) (closer-least m x (nearest m cs)).0,
      subst (All (λ y. m c ≤ m y)) (sym (nearest-none m cs q)) tt,
    )
    rest (some b) q h = (
      bound (m x) (closer-least m x (nearest m cs)).0,
      All-imply _ _ cs
          (λ y k. omega (arith, bound (m b) ((closer-least m x (nearest m cs)).1 b q), k)) (h b q),
    )

first_row-All {κ} :
    (P : Candidate → Type κ) (cs : List Candidate) (c : Candidate)
    → All P cs
    → first_row cs ≡ some c
    → P c
first_row-All P [] c h e = ground arith
first_row-All P (x ∷ cs) c (hx, h) e = subst P (ground (arith, e)) hx

first_row-none : (cs : List Candidate) → first_row cs ≡ none → cs ≡ []
first_row-none [] e = refl
first_row-none (x ∷ cs) e = ground (arith, e)

-- What holds of the rows of the search holds of the one that is returned.
pub find_nearest_driver-All {κ} :
    (P : Candidate → Type κ) (env : Env) (db : Db) (lat lng : Option ℤ) (ex : List ℕ)
    (c : Candidate)
    → All P (online_drivers ex db.drivers db.taxis)
    → find_nearest_driver env db lat lng ex ≡ some c
    → P c
unfolding find_nearest_driver
find_nearest_driver-All P env db lat lng ex c h = pick (coord_truthy lat && coord_truthy lng)
  where
    rows : List Candidate
    rows = online_drivers ex db.drivers db.taxis

    pick :
        (b : Bool)
        → (if b then nearest (candidate_distance env lat lng) rows else first_row rows) ≡ some c
        → P c
    pick true e = nearest-All P (candidate_distance env lat lng) rows c h e
    pick false e = first_row-All P rows c h e

-- A driver that is returned is left.
pub find_nearest_driver-left :
    (env : Env) (db : Db) (lat lng : Option ℤ) (ex : List ℕ) (c : Candidate)
    → find_nearest_driver env db lat lng ex ≡ some c
    → is_left ex db.drivers c.driver.id ≡ true
find_nearest_driver-left env db lat lng ex c e =
    (find_nearest_driver-All (IsFound ex db.drivers db.taxis) env db lat lng ex c
      (online_drivers-All ex db.drivers db.taxis) e).1

-- With a known pickup, no row of the search is nearer than the driver that `findNearestDriver` returns.
pub find_nearest_driver-least :
    (env : Env) (db : Db) (lat lng : Option ℤ) (ex : List ℕ) (c : Candidate)
    → coord_truthy lat ≡ true
    → coord_truthy lng ≡ true
    → find_nearest_driver env db lat lng ex ≡ some c
    → All
        (λ x. candidate_distance env lat lng c ≤ candidate_distance env lat lng x)
        (online_drivers ex db.drivers db.taxis)
unfolding find_nearest_driver
find_nearest_driver-least env db lat lng ex c hlat hlng e =
    nearest-least (candidate_distance env lat lng) (online_drivers ex db.drivers db.taxis) c
      (ground (arith, e, hlat, hlng))

append-nil {ℓ} : {A : Type ℓ} (xs ys : List A) → (xs ++ ys) ≡ [] → (xs ≡ []) × (ys ≡ [])
append-nil [] ys e = (refl, e)
append-nil (x ∷ xs) ys e = (ground (arith, e), ground (arith, e))

rows_of_driver-nil :
    (d : Driver) (ts : List Taxi) → rows_of_driver d ts ≡ [] → any (serves d) ts ≡ false
unfolding rows_of_driver
rows_of_driver-nil d [] e = refl
rows_of_driver-nil d (t ∷ ts) e = ground (arith, e, rows_of_driver-nil d ts)

online_drivers-nil :
    (ex : List ℕ) (ds : List Driver) (ts : List Taxi)
    → online_drivers ex ds ts ≡ []
    → All (λ d. is_free ex ts d ≡ false) ds
unfolding online_drivers
online_drivers-nil ex [] ts e = tt
online_drivers-nil ex (d ∷ ds) ts e = pick (is_eligible ex d) refl e (online_drivers-nil ex ds ts)
  where
    pick :
        (b : Bool)
        → is_eligible ex d ≡ b
        → (if b then rows_of_driver d ts ++ online_drivers ex ds ts else online_drivers ex ds ts)
          ≡ []
        → (online_drivers ex ds ts ≡ [] → All (λ x. is_free ex ts x ≡ false) ds)
        → (is_free ex ts d ≡ false) × All (λ x. is_free ex ts x ≡ false) ds
    pick true q e h = (
      ground (arith, q, rows_of_driver-nil d ts (append-nil (rows_of_driver d ts) _ e).0),
      h (append-nil (rows_of_driver d ts) _ e).1,
    )
    pick false q e h = (ground (arith, q), h e)

-- `findNearestDriver` returns nobody only when no driver is free.
pub find_nearest_driver-none :
    (env : Env) (db : Db) (lat lng : Option ℤ) (ex : List ℕ)
    → find_nearest_driver env db lat lng ex ≡ none
    → All (λ d. is_free ex db.taxis d ≡ false) db.drivers
unfolding find_nearest_driver
find_nearest_driver-none env db lat lng ex e =
    online_drivers-nil ex db.drivers db.taxis (pick (coord_truthy lat && coord_truthy lng) e)
  where
    rows : List Candidate
    rows = online_drivers ex db.drivers db.taxis

    pick :
        (b : Bool)
        → (if b then nearest (candidate_distance env lat lng) rows else first_row rows) ≡ none
        → rows ≡ []
    pick true e = nearest-none (candidate_distance env lat lng) rows e
    pick false e = first_row-none rows e

-- ===== src/Trips/Reads/Access.antt =====
-- Who sees which trips: `canAccessTrip` and the lists of src/application/trips/useCases.js.
use oncall_backend_private.Prelude.{
  ℕ, ◌≤◌, ◌≡◌, ap, subst, sym, ◌↔◌, ◌⊎◌, inl, inr, refl, Bool-cases, true, Option, none, some, List,
  arith, All, All-take, All-reverse, All-keep, All-imply, length, length-take, reverse,
}
use oncall_backend_private.Sql.{select_all}
use oncall_backend_private.Schema.{Trip, Driver, Db}
use oncall_backend_private.Trips.Rules.{
  Viewer, can_access_trip, is_waiting, holds, same_driver, access_forbidden,
}
use oncall_backend_private.Trips.Repository.{
  find_by_id, find_driver_by_phone, for_driver, of_passenger,
}
use oncall_backend_private.Trips.Matching.{ok, err}
use oncall_backend_private.Trips.Reads.{
  newest, find_for_driver, find_by_passenger, list_driver_trips, list_passenger_trips, get_trip,
  view, trips_for,
}

newest-All {κ} : (P : Trip → Type κ) (n : ℕ) (ts : List Trip) → All P ts → All P (newest n ts)
unfolding newest
newest-All P n ts h = All-take P n (reverse ts) (All-reverse P ts h)

-- The trips that a driver is shown are at most 50, and each waits for a driver or is the driver's own.
pub driver_list_private :
    (db : Db) (phone : ℕ) (d : Driver)
    → find_driver_by_phone db phone ≡ some d
    → (length (list_driver_trips db phone) ≤ 50)
      × All
          (λ t. (is_waiting t.status ≡ true) ⊎ (t.driver_id ≡ some d.id))
          (list_driver_trips db phone)
unfolding list_driver_trips find_for_driver newest
driver_list_private db phone d e =
    subst
      (λ ts.
        (length ts ≤ 50) × All (λ t. (is_waiting t.status ≡ true) ⊎ (t.driver_id ≡ some d.id)) ts)
      (sym (ap (trips_for db) e))
      (
        length-take 50 _,
        newest-All _ 50 _ (
            All-imply _ _ (select_all (for_driver d.id) db.trips) (λ t h. own t h)
              (All-keep (for_driver d.id) db.trips)),
      )
  where
    own :
        (t : Trip)
        → for_driver d.id t ≡ true
        → (is_waiting t.status ≡ true) ⊎ (t.driver_id ≡ some d.id)
    own t h = ground (arith, h)

-- A passenger is shown the passenger's own trips only, at most 100.
pub passenger_list_private :
    (db : Db) (phone : ℕ)
    → (length (list_passenger_trips db phone) ≤ 100)
      × All (λ t. t.user_phone ≡ some phone) (list_passenger_trips db phone)
unfolding find_by_passenger newest
passenger_list_private db phone = (
  length-take 100 _,
  newest-All (λ t. t.user_phone ≡ some phone) 100 _
      (All-imply _ _ (select_all (of_passenger phone) db.trips) own
        (All-keep (of_passenger phone) db.trips)),
)
  where
    own : (t : Trip) → of_passenger phone t ≡ true → t.user_phone ≡ some phone
    own t h = ground (arith, h)

-- The viewer is an administrator, or the passenger of the trip, or its driver.
abbrev pub MaySee : Viewer → Trip → Type 0
MaySee user t =
    (user.is_admin ≡ true)
    ⊎ (t.user_phone ≡ some user.phone)
    ⊎ ((d : ℕ) × (user.driver_id ≡ some d) × (t.driver_id ≡ some d))

holds_iff : (o : Option ℕ) (n : ℕ) → (holds o n ≡ true) ↔ (o ≡ some n)
holds_iff none n = (λ e. ground (arith, e), λ e. ground (arith, e))
holds_iff (some m) n = (λ e. ground (arith, e), λ e. ground (arith, e))

same_driver_iff :
    (a b : Option ℕ) → (same_driver a b ≡ true) ↔ ((d : ℕ) × (a ≡ some d) × (b ≡ some d))
same_driver_iff none b = (λ e. ground (arith, e), λ h. ground (arith, h.1))
same_driver_iff (some n) b = (
  λ e. (n, refl, (holds_iff b n).0 e),
  λ h. let same : n ≡ h.0 = ground (arith, h.1) in (holds_iff b n).1 (rw same h.2),
)

can_access_trip_iff : (user : Viewer) (t : Trip) → (can_access_trip user t ≡ true) ↔ MaySee user t
unfolding can_access_trip
can_access_trip_iff user t = (
  λ e. elim (Bool-cases user.is_admin) [
    | inl a ↦ inl a
    | inr a ↦ elim (Bool-cases (holds t.user_phone user.phone)) [
      | inl p ↦ inr (inl ((holds_iff t.user_phone user.phone).0 p))
      | inr p ↦ inr (inr ((same_driver_iff user.driver_id t.driver_id).0 (ground (arith, a, p, e))))
    ]
  ],
  λ h. elim h [
    | inl a ↦ ground (arith, a)
    | inr (inl p) ↦ ground (arith, (holds_iff t.user_phone user.phone).1 p)
    | inr (inr d) ↦ ground (arith, (same_driver_iff user.driver_id t.driver_id).1 d)
  ],
)

-- `getTrip` answers a trip exactly when it is the row of that id and the viewer is an administrator, the
-- passenger whose phone the row has, or the driver whose id it has. It answers that access is forbidden
-- exactly when the row is there and the viewer is none of these.
pub get_trip_iff :
    (db : Db) (user : Viewer) (i : ℕ) (t : Trip)
    → ((get_trip db user i ≡ ok t) ↔ ((find_by_id db i ≡ some t) × MaySee user t))
      × ((get_trip db user i ≡ err access_forbidden)
          ↔ ((u : Trip) × (find_by_id db i ≡ some u) × ¬ MaySee user u))
unfolding get_trip
get_trip_iff db user i t = views (find_by_id db i)
  where
    views :
        (o : Option Trip)
        → ((view user o ≡ ok t) ↔ ((o ≡ some t) × MaySee user t))
          × ((view user o ≡ err access_forbidden) ↔ ((u : Trip) × (o ≡ some u) × ¬ MaySee user u))
    views none = (
      (λ e. ground (arith, e), λ h. ground (arith, h.0)),
      (λ e. ground (arith, e), λ h. ground (arith, h.1)),
    )
    views (some x) = elim (Bool-cases (can_access_trip user x)) [
      | inl y ↦
          let may = (can_access_trip_iff user x).0 y in
          (
            (
              λ e.
                  let same : x ≡ t = ground (arith, y, e) in
                  (ap some same, subst (MaySee user) same may),
              λ h. ground (arith, y, h.0),
            ),
            (
              λ e. ground (arith, y, e),
              λ h.
                  let same : x ≡ h.0 = ground (arith, h.1) in
                  absurd (h.2 (subst (MaySee user) same may)),
            ),
          )
      | inr n ↦
          let not_may : ¬ MaySee user x =
            λ m. ground (arith, n, (can_access_trip_iff user x).1 m) in
          (
            (
              λ e. ground (arith, n, e),
              λ h.
                  let same : x ≡ t = ground (arith, h.0) in
                  absurd (not_may (subst (MaySee user) (sym same) h.1)),
            ),
            (λ e. (x, refl, not_may), λ h. ground (arith, n)),
          )
    ]

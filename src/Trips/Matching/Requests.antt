-- ===== src/Trips/Matching/Requests.antt =====
-- What `sendRequestToDriver` of src/services/driverMatcher.js leaves, and how the drivers left shrink.
use oncall_backend_private.Prelude.{
  ℕ, suc, ◌≤◌, ◌≡◌, refl, ap, ◌∙◌, Bool, true, ◌||◌, Option, some, List, [], ◌∷◌, ◌++◌, ◌==◌,
  includes, arith, ==_refl,
}
use oncall_backend_private.Sql.{select_first, changes}
use oncall_backend_private.Schema.{Trip, Driver, Timer, Db}
use oncall_backend_private.Trips.Settlement.{Env}
use oncall_backend_private.Trips.Repository.{
  by_id, find_by_id, update_trip, with_assigned, set_timer,
}
use oncall_backend_private.Trips.Repository.Found.{find_by_id-update}
use oncall_backend_private.Trips.Matching.{is_eligible, push_request, send_request_to_driver}
use oncall_backend_private.Trips.Matching.Nearest.{is_left}

abbrev pub timer_of : ℕ → Timer → Bool
timer_of i t = t.trip_id == i

-- The entry of `tripTimers` for a trip.
unfoldable pub pending_timer : Db → ℕ → Option Timer
pending_timer db i = select_first (timer_of i) db.timers

-- The drivers that a search may still ask.
unfoldable pub drivers_left : Db → List ℕ → ℕ
drivers_left db rejected = changes (is_eligible rejected) db.drivers

pub includes-append_one :
    (xs : List ℕ) (n a : ℕ) → includes (xs ++ n ∷ []) a ≡ (includes xs a || n == a)
unfolding includes
includes-append_one [] n a = ground arith
includes-append_one (x ∷ xs) n a = ground (arith, includes-append_one xs n a)

pub changes-excluded_le :
    (ex : List ℕ) (n : ℕ) (ds : List Driver)
    → changes (is_eligible (ex ++ n ∷ [])) ds ≤ changes (is_eligible ex) ds
unfolding changes is_eligible
changes-excluded_le ex n [] = omega arith
changes-excluded_le ex n (d ∷ ds) =
    ground (arith, changes-excluded_le ex n ds, includes-append_one ex n d.id)

-- Excluding a driver that is left leaves fewer.
pub changes-excluded_lt :
    (ex : List ℕ) (n : ℕ) (ds : List Driver)
    → is_left ex ds n ≡ true
    → suc (changes (is_eligible (ex ++ n ∷ [])) ds) ≤ changes (is_eligible ex) ds
unfolding changes is_eligible
changes-excluded_lt ex n [] h = ground arith
changes-excluded_lt ex n (d ∷ ds) h = ground (
  arith,
  changes-excluded_le ex n ds,
  changes-excluded_lt ex n ds,
  includes-append_one ex n d.id,
  h,
)

pub push_request-rows :
    (env : Env) (db : Db) (i p : ℕ)
    → ((push_request env db i p).trips ≡ db.trips)
      × ((push_request env db i p).drivers ≡ db.drivers)
push_request-rows env db i p = (ground arith, ground arith)

pub send-trips :
    (env : Env) (db : Db) (i : ℕ) (d : Driver) (now : ℕ)
    → (send_request_to_driver env db i d now).trips
      ≡ (update_trip db i (with_assigned d.id now)).trips
unfolding send_request_to_driver set_timer
send-trips env db i d now = ground arith

pub send-drivers :
    (env : Env) (db : Db) (i : ℕ) (d : Driver) (now : ℕ)
    → (send_request_to_driver env db i d now).drivers ≡ db.drivers
unfolding send_request_to_driver set_timer update_trip
send-drivers env db i d now = ground arith

pub send-timer :
    (env : Env) (db : Db) (i : ℕ) (d : Driver) (now : ℕ)
    → pending_timer (send_request_to_driver env db i d now) i
      ≡ some (record { trip_id = i; driver_id = d.id })
unfolding send_request_to_driver set_timer pending_timer select_first
send-timer env db i d now = ground (arith, ==_refl i)

pub send-trip :
    (env : Env) (db : Db) (i : ℕ) (d : Driver) (now : ℕ) (t : Trip)
    → find_by_id db i ≡ some t
    → find_by_id (send_request_to_driver env db i d now) i ≡ some (with_assigned d.id now t)
unfolding find_by_id
send-trip env db i d now t e =
    ap (select_first (by_id i)) (send-trips env db i d now)
    ∙ find_by_id-update db i (with_assigned d.id now) t (λ x. refl) e

-- ===== src/Trips/Matching/Search.antt =====
-- The course of a search for a driver: `sendRequestToDriver` and its 30 s timer in
-- src/services/driverMatcher.js, with `dispatchMatching` of src/application/trips/useCases.js.
use oncall_backend_private.Prelude.{
  ℕ, zero, suc, ◌+◌, ◌≤◌, ◌≡◌, refl, sym, ap, subst, ◌∙◌, true, Option, none, some, List, [], arith,
  inl, inr, ◌⊎◌, ==_iff,
}
use oncall_backend_private.Sql.{select_first_sound, changes}
use oncall_backend_private.Schema.{no_driver, Trip, Driver, Timer, Db}
use oncall_backend_private.Trips.Rules.{is_waiting, next_rejected_list}
use oncall_backend_private.Trips.Settlement.{Env}
use oncall_backend_private.Trips.Repository.{
  find_by_id, update_trip, with_status, with_rejected, with_assigned,
}
use oncall_backend_private.Trips.Repository.Found.{find_by_id-update}
use oncall_backend_private.Trips.Matching.{
  is_eligible, Candidate, find_nearest_driver, send_request_to_driver, ask_next, pass_on,
  tell_searching, expire_trip, on_timeout, dispatch_to, dispatch_matching,
}
use oncall_backend_private.Trips.Matching.Nearest.{is_left, find_nearest_driver-left}
use oncall_backend_private.Trips.Matching.Requests.{
  timer_of, pending_timer, drivers_left, changes-excluded_lt, send-drivers, send-timer, send-trip,
}

abbrev fire : Env → Db → ℕ → Option Timer → Db
fire env db now none = db
fire env db now (some timer) = on_timeout env db timer now

-- So many timeouts of a trip, 30 s apart, with no answer between them.
unfoldable pub unanswered : Env → Db → ℕ → ℕ → ℕ → Db
unanswered env db i now zero = db
unanswered env db i now (suc n) =
    unanswered env (fire env db now (pending_timer db i)) i (now + 30000) n

IsGivenUp : Db → ℕ → Type 0
IsGivenUp db i = (t : Trip) × (find_by_id db i ≡ some t) × (t.status ≡ no_driver)

-- A trip whose asked driver is one of those left, of whom there are at most n.
record IsSearching (db : Db) (i n : ℕ) : Type 0 where
  trip : Trip
  asked : ℕ
  is_trip : find_by_id db i ≡ some trip
  is_open : is_waiting trip.status ≡ true
  is_timed : pending_timer db i ≡ some (record { trip_id = i; driver_id = asked })
  is_asked : is_left trip.rejected_drivers db.drivers asked ≡ true
  is_bounded : drivers_left db trip.rejected_drivers ≤ n

-- Asking the nearest driver left, or giving the trip up, when one driver has just been excluded.
ask_next-IsSearching :
    (env : Env) (db : Db) (i n now : ℕ) (t : Trip) (o : Option Candidate)
    → find_by_id db i ≡ some t
    → is_waiting t.status ≡ true
    → drivers_left db t.rejected_drivers ≤ n
    → ((c : Candidate) → o ≡ some c → is_left t.rejected_drivers db.drivers c.driver.id ≡ true)
    → (s : Trip)
    → IsGivenUp (tell_searching i s (ask_next env db i o now)) i
      ⊎ IsSearching (tell_searching i s (ask_next env db i o now)) i n
unfolding ask_next IsGivenUp find_by_id drivers_left pending_timer
ask_next-IsSearching env db i n now t none e w h l s =
    inl (
      with_status no_driver t,
      find_by_id-update db i (with_status no_driver) t (λ x. refl) e,
      refl,
    )
ask_next-IsSearching env db i n now t (some c) e w h l s = inr (record {
  trip = with_assigned c.driver.id now t;
  asked = c.driver.id;
  is_trip = send-trip env db i c.driver now t e;
  is_open = w;
  is_timed = send-timer env db i c.driver now;
  is_asked =
      subst (λ ds. is_left t.rejected_drivers ds c.driver.id ≡ true)
        (sym (send-drivers env db i c.driver now)) (l c refl);
  is_bounded =
      subst (λ ds. changes (is_eligible t.rejected_drivers) ds ≤ n)
        (sym (send-drivers env db i c.driver now)) h;
})

expire_trip-open :
    (env : Env) (db : Db) (timer : Timer) (now : ℕ) (t : Trip)
    → is_waiting t.status ≡ true
    → expire_trip env db timer now (some t)
      ≡ tell_searching timer.trip_id t (pass_on env db timer.trip_id t timer.driver_id now)
expire_trip-open env db timer now t w = ground (arith, w)

-- A timeout of a trip that still waits.
pub fire-open :
    (env : Env) (db : Db) (i d now : ℕ) (t : Trip)
    → find_by_id db i ≡ some t
    → is_waiting t.status ≡ true
    → pending_timer db i ≡ some (record { trip_id = i; driver_id = d })
    → fire env db now (pending_timer db i) ≡ tell_searching i t (pass_on env db i t d now)
unfolding on_timeout
fire-open env db i d now t e w p =
    ap (fire env db now) p
    ∙ ap (expire_trip env db (record { trip_id = i; driver_id = d }) now) e
    ∙ expire_trip-open env db (record { trip_id = i; driver_id = d }) now t w

fire-IsSearching :
    (env : Env) (db : Db) (i n now : ℕ)
    → IsSearching db i (suc n)
    → IsGivenUp (fire env db now (pending_timer db i)) i
      ⊎ IsSearching (fire env db now (pending_timer db i)) i n
unfolding pass_on next_rejected_list update_trip drivers_left
fire-IsSearching env db i n now s =
    subst (λ x. IsGivenUp x i ⊎ IsSearching x i n)
      (sym (fire-open env db i s.asked now s.trip s.is_trip s.is_open s.is_timed))
      (ask_next-IsSearching env excluded i n now (with_rejected left s.trip)
        (find_nearest_driver env excluded s.trip.pickup_lat s.trip.pickup_lng left)
        (find_by_id-update db i (with_rejected left) s.trip (λ x. refl) s.is_trip) s.is_open
        (omega (
          arith,
          s.is_bounded,
          changes-excluded_lt s.trip.rejected_drivers s.asked db.drivers s.is_asked,
        ))
        (λ c e. find_nearest_driver-left env excluded s.trip.pickup_lat s.trip.pickup_lng left c e)
        s.trip)
  where
    left : List ℕ
    left = next_rejected_list s.trip.rejected_drivers s.asked

    excluded : Db
    excluded = update_trip db i (with_rejected left)

-- A timer that fires for a trip that was given up does nothing.
fire-closed :
    (env : Env) (db : Db) (i now : ℕ) (t : Trip)
    → find_by_id db i ≡ some t
    → t.status ≡ no_driver
    → (o : Option Timer) → pending_timer db i ≡ o
    → fire env db now o ≡ db
unfolding on_timeout pending_timer
fire-closed env db i now t e h none q = refl
fire-closed env db i now t e h (some tm) q =
    ap (expire_trip env db tm now) (
      ap (find_by_id db) ((==_iff tm.trip_id i).0 (select_first_sound (timer_of i) db.timers tm q))
      ∙ e)
    ∙ ground (arith, ap is_waiting h)

fire-IsGivenUp :
    (env : Env) (db : Db) (i now : ℕ)
    → IsGivenUp db i
    → IsGivenUp (fire env db now (pending_timer db i)) i
unfolding IsGivenUp
fire-IsGivenUp env db i now (t, e, h) =
    (t, ap (λ x. find_by_id x i) (fire-closed env db i now t e h (pending_timer db i) refl) ∙ e, h)

-- Nobody is left to ask.
is_left-none :
    (ex : List ℕ) (n : ℕ) (ds : List Driver)
    → is_left ex ds n ≡ true
    → 1 ≤ changes (is_eligible ex) ds
unfolding changes
is_left-none ex n ds h = omega (arith, changes-excluded_lt ex n ds h)

unanswered-IsGivenUp :
    (env : Env) (db : Db) (i now n : ℕ) → IsGivenUp db i → IsGivenUp (unanswered env db i now n) i
unfolding unanswered
unanswered-IsGivenUp env db i now zero h = h
unanswered-IsGivenUp env db i now (suc n) h =
    unanswered-IsGivenUp env (fire env db now (pending_timer db i)) i (now + 30000) n
      (fire-IsGivenUp env db i now h)

unanswered-IsSearching :
    (env : Env) (db : Db) (i now n : ℕ)
    → IsSearching db i n
    → IsGivenUp (unanswered env db i now n) i
unfolding unanswered drivers_left
unanswered-IsSearching env db i now zero s =
    ground (arith, s.is_bounded, is_left-none s.trip.rejected_drivers s.asked db.drivers s.is_asked)
unanswered-IsSearching env db i now (suc n) s = elim (fire-IsSearching env db i n now s) [
  | inl g ↦ unanswered-IsGivenUp env (fire env db now (pending_timer db i)) i (now + 30000) n g
  | inr k ↦ unanswered-IsSearching env (fire env db now (pending_timer db i)) i (now + 30000) n k
]

-- Once `dispatchMatching` has asked a driver for a waiting trip that nobody rejected, and nobody
-- ever answers, the trip is in the status no_driver after as many timeouts as there were eligible
-- drivers, or more.
pub search_ends :
    (env : Env) (db : Db) (i now n : ℕ) (t : Trip) (c : Candidate)
    → find_by_id db i ≡ some t
    → is_waiting t.status ≡ true
    → t.rejected_drivers ≡ []
    → find_nearest_driver env db t.pickup_lat t.pickup_lng [] ≡ some c
    → drivers_left db [] ≤ n
    → (final : Trip) × (find_by_id
          (unanswered env
            (dispatch_matching env db i t.pickup_lat t.pickup_lng now)
            i
            (now + 30000)
            n)
          i
        ≡ some final)
      × (final.status ≡ no_driver)
unfolding dispatch_matching IsGivenUp drivers_left
search_ends env db i now n t c e w r f b =
    subst (λ x. IsGivenUp (unanswered env x i (now + 30000) n) i)
      (sym (ap (dispatch_to env db i now) f))
      (unanswered-IsSearching env (send_request_to_driver env db i c.driver now) i (now + 30000) n
        (record {
          trip = with_assigned c.driver.id now t;
          asked = c.driver.id;
          is_trip = send-trip env db i c.driver now t e;
          is_open = w;
          is_timed = send-timer env db i c.driver now;
          is_asked = rw (
            r,
            send-drivers env db i c.driver now,
            find_nearest_driver-left env db t.pickup_lat t.pickup_lng [] c f,
          );
          is_bounded = rw (r, send-drivers env db i c.driver now) b;
        }))

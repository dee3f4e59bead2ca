-- ===== src/Trips/Lifecycle/Authority.antt =====
-- Who may change a status (`updateTripStatus` of src/application/trips/useCases.js over the policies
-- of src/domain/trips/tripPolicies.js).
use oncall_backend_private.Prelude.{
  ℕ, ◌≡◌, refl, ◌⊎◌, inl, inr, true, false, Option, none, some, arith, Option-cases, Bool-cases,
}
use oncall_backend_private.Schema.{Status, waiting_driver, accepted, cancelled, Trip, Driver, Db}
use oncall_backend_private.Trips.Rules.{
  driver, is_driver_only, state_transition_authorization, acceptance_policy, assigned_driver_policy,
  cancellation_policy, drives, holds,
}
use oncall_backend_private.Trips.Repository.{find_by_id, find_driver_by_phone}
use oncall_backend_private.Trips.Settlement.{Env}
use oncall_backend_private.Trips.Matching.{ok}
use oncall_backend_private.Trips.Lifecycle.{
  StatusCommand, accept_branch, start_branch, complete_branch, cancel_branch, misc_branch, branch,
  update_trip_status,
}
use oncall_backend_private.Trips.Lifecycle.Result.{ok-branch}

-- The actor is the driver that the trip is assigned to.
abbrev pub IsAssigned : Db → ℕ → Trip → Type 0
IsAssigned db phone t =
    (d : Driver) × (find_driver_by_phone db phone ≡ some d) × (t.driver_id ≡ some d.id)

-- What a change to a status asks of the actor and of the trip as it was.
abbrev pub MayAsk : Db → ℕ → Trip → Status → Type 0
MayAsk db phone t accepted =
    (d : Driver) × (find_driver_by_phone db phone ≡ some d) × (t.status ≡ waiting_driver)
MayAsk db phone t cancelled = (t.user_phone ≡ some phone) ⊎ IsAssigned db phone t
MayAsk db phone t _ = IsAssigned db phone t

drives-IsAssigned :
    (db : Db) (phone : ℕ) (t : Trip) (o : Option Driver)
    → find_driver_by_phone db phone ≡ o
    → drives o t ≡ true
    → IsAssigned db phone t
drives-IsAssigned db phone t none e h = cc
drives-IsAssigned db phone t (some d) e h = (d, e, ground arith)

accept-MayAsk :
    (db : Db) (i phone : ℕ) (t : Trip)
    → (accept_branch db i t phone).1 ≡ ok tt
    → MayAsk db phone t accepted
unfolding accept_branch acceptance_policy
accept-MayAsk db i phone t h = elim (Option-cases (find_driver_by_phone db phone)) [
  | inl e ↦ ground arith
  | inr (d, e) ↦ (d, e, ground arith)
]

cancel-MayAsk :
    (db : Db) (i phone : ℕ) (t : Trip)
    → (cancel_branch db i t phone).1 ≡ ok tt
    → MayAsk db phone t cancelled
unfolding cancel_branch cancellation_policy
cancel-MayAsk db i phone t h = elim (Bool-cases (holds t.user_phone phone)) [
  | inl own ↦ inl (ground arith)
  | inr other ↦
      inr (drives-IsAssigned db phone t (find_driver_by_phone db phone) refl (ground arith))
]

branch-MayAsk :
    (env : Env) (db : Db) (c : StatusCommand) (now : ℕ) (t : Trip) (s : Status)
    → (branch env db c now t s).1 ≡ ok tt
    → MayAsk db c.actor_phone t s
unfolding branch start_branch complete_branch misc_branch assigned_driver_policy
branch-MayAsk env db c now t accepted h = accept-MayAsk db c.trip_id c.actor_phone t h
branch-MayAsk env db c now t cancelled h = cancel-MayAsk db c.trip_id c.actor_phone t h
branch-MayAsk env db c now t _ h =
    drives-IsAssigned db c.actor_phone t (find_driver_by_phone db c.actor_phone) refl (ground arith)

-- A status is changed only by those who may: a status of drivers only by a driver's session; an
-- acceptance by a registered driver, of a waiting trip; a cancellation by the passenger of the trip or
-- its driver; every other change by the driver that the trip is assigned to.
pub status_authority :
    (env : Env) (db : Db) (c : StatusCommand) (now : ℕ) (t u : Trip)
    → find_by_id db c.trip_id ≡ some t
    → (update_trip_status env db c now).1 ≡ ok u
    → ((is_driver_only c.status ≡ false) ⊎ (c.actor_type ≡ driver))
      × MayAsk db c.actor_phone t c.status
unfolding state_transition_authorization
status_authority env db c now t u e h =
    let (valid, authorised, went, found, after) = ok-branch env db c now t u e h in
    (ground arith, branch-MayAsk env db c now t c.status went)

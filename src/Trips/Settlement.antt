-- ===== src/Trips/Settlement.antt =====
-- What a finished trip comes to: the route length of src/domain/trips/tripPolicies.js, and the
-- settlement transaction of src/infrastructure/gateways/tripGateways.js.
use oncall_backend_private.Prelude.{
  ℕ, zero, suc, ◌+◌, Bool, true, false, ◌&&◌, Option, none, some, List, [], ◌∷◌, ltb, if◌then◌else◌,
}
use oncall_backend_private.Schema.{ℤ, Trip, Point, PaymentStatus, paid, failed, trip_completed, Db}
use oncall_backend_private.Wallet.{PaymentResult, no_fault, is_success, process_payment}
use oncall_backend_private.Trips.Rules.{coord_truthy, coord_or_zero}
use oncall_backend_private.Trips.Repository.{update_trip, with_payment_status, notify}

-- What the handlers take from outside: `getDistanceKm` (floating-point trigonometry) in millimetres,
-- the hour of the day, who is connected to a socket room, and whether pushes are configured.
pub record Env : Type 0 where
  pub distance : ℤ → ℤ → ℤ → ℤ → ℕ
  pub hour : ℕ
  pub passenger_online : ℕ → Bool
  pub driver_online : ℕ → Bool
  pub push_configured : Bool

-- The loop of `settleTripDistance` over consecutive points.
unfoldable pub route_distance : Env → List Point → ℕ
route_distance env [] = 0
route_distance env (p ∷ []) = 0
route_distance env (p ∷ q ∷ r) = env.distance p.lat p.lng q.lat q.lng + route_distance env (q ∷ r)

-- `settleTripDistance`: under 0.1 km, the straight line from pickup to destination if both are known.
unfoldable pub settle_trip_distance : Env → List Point → Trip → ℕ
settle_trip_distance env route trip =
    let total = route_distance env route in
    if ltb total 100000 && (coord_truthy trip.pickup_lat && coord_truthy trip.dest_lat)
    then env.distance (coord_or_zero trip.pickup_lat) (coord_or_zero trip.pickup_lng)
        (coord_or_zero trip.dest_lat) (coord_or_zero trip.dest_lng)
    else total

abbrev pub payment_status_of : Bool → PaymentStatus
payment_status_of true = paid
payment_status_of false = failed

-- The body of the transaction, once the payment has been tried.
unfoldable pub record_payment : ℕ → ℕ → Db × PaymentResult → Db
record_payment trip phone (db, result) =
    notify (update_trip db trip (with_payment_status (payment_status_of (is_success result))))
      (record { phone = phone; type = trip_completed; trip_id = some trip })

-- `if (trip.user_phone) await completionGateway.settle(tripId, trip, fare)`; 0 is the empty phone. The
-- statements of the payment succeed.
unfoldable pub settle : Db → ℕ → Trip → Option ℕ → ℕ → Db
unfolding record_payment
settle db i trip none fare = db
settle db i trip (some zero) fare = db
settle db i trip (some (suc p)) fare =
    record_payment i (suc p) (process_payment db i (suc p) fare trip.payment_method no_fault)

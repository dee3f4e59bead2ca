-- ===== src/Lib.antt =====
-- OnCall backend: taxi trips, scooter rides, a wallet, and the services around them.
--
-- The program is a Node.js server. A request reaches a use case (src/application/*/useCases.js), which asks the
-- policies of its domain (src/domain/*), reads and writes tables through repositories (src/repositories) and
-- gateways (src/infrastructure/gateways), and tells passengers and drivers through sockets and pushes. Here a use
-- case is a function from the tables, the command and the time to the tables after it and its answer; the tables,
-- the pending timers and the events sent are the record Schema.Db. An error code is a value of the answer, and a
-- refusal returns the tables that the code leaves.
--
-- Which file models what:
--   Prelude: shared names, Boolean tests on numbers, lists measured by the native numbers, and
--     the association lists that stand for `Map`.
--   Sql: the statements SELECT, UPDATE and its count of changed rows (src/config/database.js).
--   Schema: the tables (database.js), the events and the timers.
--   Fare: src/services/fareCalculator.js and the settlement figures of src/domain/trips/tripPolicies.js.
--   Wallet: src/repositories/WalletRepository.js, src/services/payment.js, and the charge of
--     src/infrastructure/gateways/scooterGateways.js.
--   Wallet.Commerce: src/application/commerce/useCases.js, src/domain/commerce/commercePolicies.js.
--   Trips.Rules: src/domain/trips/tripValues.js and tripPolicies.js (isValidStatus .. ratingPolicy).
--   Trips.Repository: src/repositories/TripRepository.js, the lookups of src/repositories/DriverRepository.js.
--   Trips.Settlement: settleTripDistance, and settle of src/infrastructure/gateways/tripGateways.js.
--   Trips.Matching: src/services/driverMatcher.js; dispatchMatching and rejectTrip of
--     src/application/trips/useCases.js.
--   Trips.Lifecycle: createTrip and updateTripStatus; Trips.Ratings: rateTrip and ratePassenger; Trips.Reads: the
--     lists, getTrip, getTripLocation, updateLocation and deleteAllTrips of the same file.
--   Scooters (Rules, Repository, Usage): src/application/scooters/useCases.js, src/domain/scooters,
--     src/repositories/ScooterRepository.js.
--   Limits: src/middleware/rateLimiter.js. Otp: src/services/otpService.js.
--   Circuit: src/domain/resilience/circuit.js.
--   Jobs: src/domain/scheduler/job.js, retryPolicy.js, and _applyFailure of
--     src/application/scheduler/scheduler.js; Jobs.Scheduler: the tick of the same file.
--   Locks: src/domain/lock/lock.js; Locks.Service: src/application/lock/lockService.js over the interface
--     LockProvider (providerPort.js), which the store of providers/memoryProvider.js fills.
--   Events: src/domain/shared/DomainEvent.js (Envelope), and outbox.js, eventBus.js and inbox.js of
--     src/application/shared (Outbox, Bus, Inbox); Events.Pipeline composes the outbox with an inbox.
--   Extensions.Semver: src/domain/extensions/semver.js.
--   Extensions.Resolver: src/application/extensions/dependencyResolver.js and verifyCompatibility of
--     src/domain/extensions/integrity.js; the depth-first search runs on as much fuel as there are ids.
--   Workflow: src/domain/workflow/definition.js (Definition) and instance.js (Instance), and
--     src/application/workflow/workflowService.js (Engine, its calls in Engine.Calls).
--   Policies: src/domain/policy/decision.js, policy.js and condition.js.
--   Cache: src/services/cache.js. Rates: src/domain/ratelimit/algorithms.js.
--   Transactions: _runTransaction and dbTransaction of src/config/database.js.
--   Scenarios: sample tables, and the theorems applied to them.
--
-- Numbers: money is in fils, which the code rounds to; distances are whole millimetres and coordinates whole
-- microdegrees, so that no rounding but the code's own is left; the error of floating-point numbers below these
-- units is not modelled. Ratings are whole, and an average is in tenths. Phones and row ids are numbers that are
-- only compared, 0 standing for the empty phone. Subtraction of times stops at 0; where the code can see a
-- negative difference, the file says what becomes of it.
--
-- Loops are recursions on lists; a search for a driver is bounded by the number of eligible drivers, which the
-- theorem on it states. The digits of a number are printed on fuel one above the number, which is enough, as the
-- theorem on reading them back shows. A call that waits (a lock, a retry) takes the list of what happens in
-- its waits; calls that interleave (the inbox, the scheduler, the workflow engine) are a list of steps. The loop that
-- fills the scheduler's workers is bounded by the workers that are free, since each start takes one.
--
-- Parameters: the distance between two places, the hour, who is connected (Trips.Settlement.Env); SHA-256, the
-- random code and the success of the SMS (Otp), the test of a condition's leaf (Policies), the publisher of the
-- outbox, what a handler does in each of its attempts (Events.Bus), what SQLite answers to BEGIN, COMMIT and
-- ROLLBACK (Transactions), the next run of a cron expression (Jobs.Scheduler), what other calls do while a charge
-- waits (Wallet.Commerce), and which uses of the storage fail (Workflow.Engine).
--
-- Not modelled: the database engine, and in the use cases a statement that fails, but for those of a
-- payment (Wallet.PaymentFault); a process that loses its stores in memory; names of workflow definitions with an
-- `@`; the waits of the event bus, of which the order of the ends is a parameter; the HTTP and socket transport,
-- logging, metrics, texts shown to users, the persisted copy of the phone locks, the
-- registry and the sandbox of extensions, the legacy routes, the administration of users, drivers,
-- fleet and platform, and the kernels of messaging and features.
pub mod Policies
pub mod Prelude
pub mod Sql
pub mod Events
pub mod Extensions
pub mod Fare
pub mod Transactions
pub mod Trips
pub mod Wallet
pub mod Schema
pub mod Scooters
pub mod Limits
pub mod Otp
pub mod Cache
pub mod Circuit
pub mod Locks
pub mod Jobs
pub mod Rates
pub mod Workflow
pub mod Scenarios

-- ===== src/Trips.antt =====
-- The trips context: src/domain/trips, src/application/trips, src/repositories/TripRepository.js and
-- the trip part of src/services/driverMatcher.js. The children define; those below them prove.
pub mod Rules
pub mod Repository
pub mod Settlement
pub mod Matching
pub mod Lifecycle
pub mod Ratings
pub mod Reads

-- ===== src/Scooters.antt =====
-- Scooter rides: src/application/scooters, src/domain/scooters and
-- src/repositories/ScooterRepository.js.
pub mod Rules
pub mod Repository
pub mod Usage
pub mod Rivals
pub mod Unlock
pub mod Rides

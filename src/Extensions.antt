-- ===== src/Extensions.antt =====
-- The extension platform: versions and their ranges, and the order in which extensions are loaded.
pub mod Semver
pub mod Resolver

-- ===== src/FlockDb.antt =====
-- helpers/flock_db.h and helpers/flock_db.c: which radio identifiers point at surveillance gear.
pub mod Types
pub mod Ouis
pub mod Vendor
pub mod Ssid
pub mod Fingerprint
pub mod Method
pub mod Labels

-- ===== src/ReconApp.antt =====
-- recon_app.c: the hit table, the alert, and the state of the links.
-- The mutex makes each function one step. Ticks are `uint32_t`.
pub mod Types
pub mod Report
pub mod Victim
pub mod Remote
pub mod Claim
pub mod Table
pub mod Rows
pub mod Gates
pub mod Alerts
pub mod Once
pub mod Purge
pub mod Survey
pub mod Ble
pub mod Broadcasts
pub mod Wifi
pub mod Board
pub mod Companion
pub mod Fits
pub mod Lines
pub mod Saved
pub mod Load
pub mod Dumps
pub mod Exclude
pub mod Quiet
pub mod Excluded
pub mod Link
pub mod Counters
pub mod Diagnostics
pub mod Drone

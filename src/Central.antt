-- ===== src/Central.antt =====
-- The central tables of internal/store/central.go: devices, poll owners, and the ingest of batches.
pub mod Tables
pub mod Always
pub mod Rows
pub mod Payload
pub mod Stable
pub mod Storing
pub mod Devices
pub mod Owners
pub mod Calls

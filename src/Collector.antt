-- ===== src/Collector.antt =====
-- The collector of a device (internal/collector).
pub mod Lines
pub mod Spool
pub mod Recovery
pub mod Upload
pub mod Status
pub mod Heartbeat

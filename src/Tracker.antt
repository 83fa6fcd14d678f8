-- ===== src/Tracker.antt =====
-- The reset trackers of internal/tracker.
pub mod Action
pub mod Rules
pub mod Synthetic
pub mod Anthropic
pub mod Codex

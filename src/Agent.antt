-- ===== src/Agent.antt =====
-- What the pollers of internal/agent share.
pub mod Sessions

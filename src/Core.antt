-- ===== src/Core.antt =====
-- core/: what the API and the workers share.
pub mod Queue
pub mod RequestLimits
pub mod Realtime

-- ===== src/Core/Realtime.antt =====
-- core/realtime: the hints that tell browsers to refetch.
pub mod Channels
pub mod Isolated
pub mod Addressed
pub mod Envelope
pub mod Bus
pub mod Redacted
pub mod Intended

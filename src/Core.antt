-- ===== src/Core.antt =====
-- packages/core: the contracts and stores that the applications share.
pub mod Types
pub mod Sample
pub mod DedupKey
pub mod Xref
pub mod Governor
pub mod Errors
pub mod Queue
pub mod Connections
pub mod Replay
pub mod OrderAttempt
pub mod OrderSyncLog
pub mod Watermark

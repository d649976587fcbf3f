-- ===== src/Pipeline.antt =====
-- internal/pipeline: from the receiver to the store.
pub mod Limiter
pub mod Guard
pub mod Normalize
pub mod Lane
pub mod Flow

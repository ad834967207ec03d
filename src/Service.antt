-- ===== src/Service.antt =====
-- The use cases of server/internal/service.
pub mod Idempotency
pub mod Snapshot
pub mod Env
pub mod Session
pub mod Deletion
pub mod Stored
pub mod Run
pub mod Generation
pub mod Request
pub mod Image
pub mod Companion

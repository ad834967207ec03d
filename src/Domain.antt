-- ===== src/Domain.antt =====
-- The types and rules of server/internal/domain.
pub mod Errors
pub mod Enums
pub mod Status
pub mod Value
pub mod User
pub mod Support
pub mod Guide
pub mod Idempotency
pub mod Event
pub mod Artifact
pub mod Request
pub mod Companion

-- ===== src/Service/Request.antt =====
-- Support requests in server/internal/service/artifact_support.go: a user asks for support, the
-- family acknowledges, and the user cancels.
pub mod Common
pub mod Create
pub mod Change
pub mod Held
pub mod Rows
pub mod Writes
pub mod Orderly
pub mod Reach

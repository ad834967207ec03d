-- ===== src/Tests.antt =====
-- Runs of the model on small inputs, and the theorems applied to such inputs.
mod Sample
mod Calls
mod Machine
mod Rules
mod Keys
mod Token
mod Hub
mod Deletion
mod Runs
mod Requests
mod Images
mod Companion
mod Generation

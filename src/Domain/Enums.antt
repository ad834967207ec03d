-- ===== src/Domain/Enums.antt =====
-- The string types with named constants of server/internal/domain, each with its `==`.
mod Support
mod Guide
pub use Support.{
  role_eq_iff, Role, SupportRequestStatus, SupportAcknowledgementKind, PresenceStatus,
  SupportSessionStatus, GuideDecision, SupportSessionEndReason, eq_role, eq_support_request_status,
  eq_support_acknowledgement_kind, eq_presence_status, eq_support_session_status, eq_guide_decision,
  eq_support_session_end_reason,
}
pub use Guide.{
  GuideGenerationJobStatus, GuideDraftStatus, GuideRunStatus, GuideMaterialBatchStatus,
  ArtifactPurpose, GuideRunAction, IdempotencyStatus, eq_guide_generation_job_status,
  eq_guide_draft_status, eq_guide_run_status, eq_guide_material_batch_status, eq_artifact_purpose,
  eq_guide_run_action, eq_idempotency_status,
}

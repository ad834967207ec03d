-- ===== src/Domain/Status.antt =====
-- server/internal/domain/status.go: which values are valid, and which transitions each status has.
pub mod Machine
use mite.Prelude.{ℕ, Bool, true, false, ◌&&◌, ◌||◌, leb, ltb, if◌then◌else◌, ◌==◌}
use mite.Domain.Enums.{
  SupportRequestStatus, SupportAcknowledgementKind, PresenceStatus, SupportSessionStatus,
  GuideGenerationJobStatus, GuideDraftStatus, GuideRunStatus, GuideMaterialBatchStatus,
  ArtifactPurpose, GuideDecision, SupportSessionEndReason, GuideRunAction,
  eq_support_request_status, eq_support_acknowledgement_kind, eq_presence_status,
  eq_support_session_status, eq_guide_generation_job_status, eq_guide_draft_status,
  eq_guide_run_status, eq_guide_material_batch_status, eq_artifact_purpose, eq_guide_decision,
  eq_support_session_end_reason, eq_guide_run_action,
}

unfoldable pub request_status_valid : SupportRequestStatus → Bool
request_status_valid s =
    s == SupportRequestStatus.pending
    || s == SupportRequestStatus.in_support
    || s == SupportRequestStatus.resolved
    || s == SupportRequestStatus.cancelled

unfoldable pub request_can_transition : SupportRequestStatus → SupportRequestStatus → Bool
request_can_transition s next =
    (s == SupportRequestStatus.pending
      && (next == SupportRequestStatus.in_support || next == SupportRequestStatus.cancelled))
    || (s == SupportRequestStatus.in_support && next == SupportRequestStatus.resolved)

unfoldable pub acknowledgement_kind_valid : SupportAcknowledgementKind → Bool
acknowledgement_kind_valid k =
    k == SupportAcknowledgementKind.now
    || k == SupportAcknowledgementKind.scheduled
    || k == SupportAcknowledgementKind.unknown

unfoldable pub presence_valid : PresenceStatus → Bool
presence_valid s =
    s == PresenceStatus.connecting || s == PresenceStatus.online || s == PresenceStatus.offline

unfoldable pub session_status_valid : SupportSessionStatus → Bool
session_status_valid SupportSessionStatus.ringing = true
session_status_valid SupportSessionStatus.active = true
session_status_valid SupportSessionStatus.generating_guide = true
session_status_valid SupportSessionStatus.reviewing_guide = true
session_status_valid SupportSessionStatus.guide_saved = true
session_status_valid SupportSessionStatus.ended = true
session_status_valid (SupportSessionStatus.other s) = false

unfoldable pub session_can_transition : SupportSessionStatus → SupportSessionStatus → Bool
session_can_transition SupportSessionStatus.ringing next = next == SupportSessionStatus.active
session_can_transition SupportSessionStatus.active next =
    next == SupportSessionStatus.generating_guide || next == SupportSessionStatus.ended
session_can_transition SupportSessionStatus.generating_guide next =
    next == SupportSessionStatus.reviewing_guide || next == SupportSessionStatus.ended
session_can_transition SupportSessionStatus.reviewing_guide next =
    next == SupportSessionStatus.ended
session_can_transition SupportSessionStatus.guide_saved next = next == SupportSessionStatus.ended
session_can_transition _ next = false

unfoldable pub job_status_valid : GuideGenerationJobStatus → Bool
job_status_valid s =
    s == GuideGenerationJobStatus.queued
    || s == GuideGenerationJobStatus.running
    || s == GuideGenerationJobStatus.succeeded
    || s == GuideGenerationJobStatus.failed

-- `CanTransitionGuideGenerationJob`.
unfoldable pub job_can_transition : GuideGenerationJobStatus → GuideGenerationJobStatus → ℕ → Bool
job_can_transition GuideGenerationJobStatus.queued to attempt =
    to == GuideGenerationJobStatus.running && leb 0 attempt && ltb attempt 3
job_can_transition GuideGenerationJobStatus.running to attempt =
    leb 1 attempt
    && leb attempt 3
    && (to == GuideGenerationJobStatus.succeeded || to == GuideGenerationJobStatus.failed)
job_can_transition GuideGenerationJobStatus.failed to attempt =
    to == GuideGenerationJobStatus.queued && leb 1 attempt && ltb attempt 3
job_can_transition _ to attempt = false

-- `CanRecoverGuideGenerationJob`.
unfoldable pub job_can_recover : ℕ → GuideGenerationJobStatus → Bool
job_can_recover attempt next =
    if ltb attempt 1 || ltb 3 attempt
    then false
    else if ltb attempt 3
    then next == GuideGenerationJobStatus.queued
    else next == GuideGenerationJobStatus.failed

unfoldable pub draft_status_valid : GuideDraftStatus → Bool
draft_status_valid s = s == GuideDraftStatus.editing || s == GuideDraftStatus.saved

unfoldable pub draft_can_transition : GuideDraftStatus → GuideDraftStatus → Bool
draft_can_transition s next = s == GuideDraftStatus.editing && next == GuideDraftStatus.saved

unfoldable pub run_status_valid : GuideRunStatus → Bool
run_status_valid s =
    s == GuideRunStatus.in_progress
    || s == GuideRunStatus.completed
    || s == GuideRunStatus.cancelled
    || s == GuideRunStatus.paused_for_support

unfoldable pub run_can_transition : GuideRunStatus → GuideRunStatus → Bool
run_can_transition s next =
    s == GuideRunStatus.in_progress
    && (next == GuideRunStatus.completed
        || next == GuideRunStatus.cancelled
        || next == GuideRunStatus.paused_for_support)

unfoldable pub batch_status_valid : GuideMaterialBatchStatus → Bool
batch_status_valid s =
    s == GuideMaterialBatchStatus.uploading || s == GuideMaterialBatchStatus.completed

unfoldable pub batch_can_transition : GuideMaterialBatchStatus → GuideMaterialBatchStatus → Bool
batch_can_transition s next =
    s == GuideMaterialBatchStatus.uploading && next == GuideMaterialBatchStatus.completed

unfoldable pub purpose_valid : ArtifactPurpose → Bool
purpose_valid p =
    p == ArtifactPurpose.request_screenshot
    || p == ArtifactPurpose.guide_material
    || p == ArtifactPurpose.guide_step

unfoldable pub purpose_can_transition : ArtifactPurpose → ArtifactPurpose → Bool
purpose_can_transition p next =
    p == ArtifactPurpose.guide_material && next == ArtifactPurpose.guide_step

unfoldable pub decision_valid : GuideDecision → Bool
decision_valid d = d == GuideDecision.create || d == GuideDecision.skip

unfoldable pub end_reason_valid : SupportSessionEndReason → Bool
end_reason_valid r =
    r == SupportSessionEndReason.guide_skipped
    || r == SupportSessionEndReason.guide_saved
    || r == SupportSessionEndReason.guide_cancelled
    || r == SupportSessionEndReason.no_materials

-- `CanEndSupportSession`.
unfoldable pub can_end_session : SupportSessionStatus → SupportSessionEndReason → Bool
can_end_session SupportSessionStatus.active r = r == SupportSessionEndReason.guide_skipped
can_end_session SupportSessionStatus.generating_guide r =
    r == SupportSessionEndReason.guide_cancelled || r == SupportSessionEndReason.no_materials
can_end_session SupportSessionStatus.reviewing_guide r =
    r == SupportSessionEndReason.guide_saved || r == SupportSessionEndReason.guide_cancelled
can_end_session SupportSessionStatus.guide_saved r = r == SupportSessionEndReason.guide_saved
can_end_session _ r = false

unfoldable pub action_valid : GuideRunAction → Bool
action_valid a = a == GuideRunAction.next || a == GuideRunAction.previous

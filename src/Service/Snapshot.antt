-- ===== src/Service/Snapshot.antt =====
-- server/internal/service/support_session_snapshot.go: requests and sessions as the JSON documents
-- of responses and events, and back.
use mathlib.Core.Option
use mite.Prelude.{◌≡◌, arith}
use mite.Json.{GuideContextSnapshot, RequestSnapshot, ConsentSnapshot, SessionSnapshot}
use mite.Domain.Support.{GuideContext, SupportRequest, Consent, SupportSession}

abbrev context_snapshot : GuideContext → GuideContextSnapshot
context_snapshot c = record {
  guide_id = c.guide_id;
  guide_run_id = c.guide_run_id;
  guide_title = c.guide_title;
  guide_version_number = c.guide_version_number;
  step_artifact_id = c.step_artifact_id;
  step_instruction = c.step_instruction;
  step_number = c.step_number;
}

abbrev context_value : GuideContextSnapshot → GuideContext
context_value c = record {
  guide_run_id = c.guide_run_id;
  guide_id = c.guide_id;
  guide_version_number = c.guide_version_number;
  step_number = c.step_number;
  guide_title = c.guide_title;
  step_instruction = c.step_instruction;
  step_artifact_id = c.step_artifact_id;
}

unfoldable pub request_snapshot : SupportRequest → RequestSnapshot
request_snapshot r = record {
  acknowledged_at = r.acknowledged_at;
  acknowledgement_kind = r.acknowledgement_kind;
  comment = r.comment;
  created_at = r.created_at;
  family_id = r.family_id;
  guide_context = Option.map context_snapshot r.guide_context;
  id = r.id;
  initial_screenshot_artifact_id = r.initial_screenshot_artifact_id;
  revision = r.revision;
  status = r.status;
  support_session_id = r.support_session_id;
  updated_at = r.updated_at;
  estimated_support_at = r.estimated_support_at;
  user_id = r.user_id;
}

unfoldable pub request_value : RequestSnapshot → SupportRequest
request_value v = record {
  id = v.id;
  user_id = v.user_id;
  family_id = v.family_id;
  initial_screenshot_artifact_id = v.initial_screenshot_artifact_id;
  comment = v.comment;
  status = v.status;
  support_session_id = v.support_session_id;
  guide_context = Option.map context_value v.guide_context;
  acknowledged_at = v.acknowledged_at;
  acknowledgement_kind = v.acknowledgement_kind;
  estimated_support_at = v.estimated_support_at;
  created_at = v.created_at;
  updated_at = v.updated_at;
  revision = v.revision;
}

abbrev consent_snapshot : Consent → ConsentSnapshot
consent_snapshot c = record {
  audio = c.audio;
  periodic_capture = c.periodic_capture;
  screen_share = c.screen_share;
  text_version = c.text_version;
}

abbrev consent_value : ConsentSnapshot → Consent
consent_value c = record {
  audio = c.audio;
  screen_share = c.screen_share;
  periodic_capture = c.periodic_capture;
  text_version = c.text_version;
}

unfoldable pub session_snapshot : SupportSession → SessionSnapshot
session_snapshot s = record {
  consent = Option.map consent_snapshot s.consent;
  consented_at = s.consented_at;
  created_at = s.created_at;
  end_reason = s.end_reason;
  ended_at = s.ended_at;
  family_id = s.family_id;
  guide_decision = s.guide_decision;
  guide_draft_id = s.guide_draft_id;
  guide_generation_job_id = s.guide_generation_job_id;
  guide_id = s.guide_id;
  guide_material_batch_id = s.guide_material_batch_id;
  id = s.id;
  live_kit_room_name = s.live_kit_room_name;
  revision = s.revision;
  started_at = s.started_at;
  status = s.status;
  support_request_id = s.support_request_id;
  updated_at = s.updated_at;
  user_id = s.user_id;
}

unfoldable pub session_value : SessionSnapshot → SupportSession
session_value v = record {
  id = v.id;
  support_request_id = v.support_request_id;
  user_id = v.user_id;
  family_id = v.family_id;
  live_kit_room_name = v.live_kit_room_name;
  status = v.status;
  guide_decision = v.guide_decision;
  guide_material_batch_id = v.guide_material_batch_id;
  guide_generation_job_id = v.guide_generation_job_id;
  guide_draft_id = v.guide_draft_id;
  guide_id = v.guide_id;
  consent = Option.map consent_value v.consent;
  consented_at = v.consented_at;
  started_at = v.started_at;
  ended_at = v.ended_at;
  end_reason = v.end_reason;
  created_at = v.created_at;
  updated_at = v.updated_at;
  revision = v.revision;
}

-- The snapshot of a request holds all of it.
pub request_value-snapshot : (r : SupportRequest) → request_value (request_snapshot r) ≡ r
unfolding request_value request_snapshot
request_value-snapshot r = ground arith

-- The snapshot of a session holds all of it.
pub session_value-snapshot : (s : SupportSession) → session_value (session_snapshot s) ≡ s
unfolding session_value session_snapshot
session_value-snapshot s = ground arith

-- ===== src/Json.antt =====
-- The JSON documents that the server stores in `idempotency_records.response_body`, by their
-- content (server/internal/service/support_session_snapshot.go and the `data` envelopes of
-- guides.go). `encoding/json` writes and reads such a document; `raw` holds bytes that are no JSON.
use mite.Prelude.{ℕ, Bool, true, false, Option, []}
use mite.Text.{Str}
use mite.Domain.Errors.{ErrorCode}
use mite.Domain.Enums.{
  SupportRequestStatus, SupportAcknowledgementKind, SupportSessionStatus, GuideDecision,
  SupportSessionEndReason,
}
use mite.Domain.Support.{Time}
use mite.Domain.Guide.{GuideRun, GuideGenerationJob}

pub record GuideContextSnapshot : Type 0 where
  pub guide_id : Str
  pub guide_run_id : Str
  pub guide_title : Str
  pub guide_version_number : ℕ
  pub step_artifact_id : Str
  pub step_instruction : Str
  pub step_number : ℕ

-- A Go conversion between string types keeps the value, so the statuses keep their types here.
pub record RequestSnapshot : Type 0 where
  pub acknowledged_at : Option Time
  pub acknowledgement_kind : Option SupportAcknowledgementKind
  pub comment : Str
  pub created_at : Time
  pub family_id : Str
  pub guide_context : Option GuideContextSnapshot
  pub id : Str
  pub initial_screenshot_artifact_id : Str
  pub revision : ℕ
  pub status : SupportRequestStatus
  pub support_session_id : Option Str
  pub updated_at : Time
  pub estimated_support_at : Option Time
  pub user_id : Str

pub record ConsentSnapshot : Type 0 where
  pub audio : Bool
  pub periodic_capture : Bool
  pub screen_share : Bool
  pub text_version : Str

pub record SessionSnapshot : Type 0 where
  pub consent : Option ConsentSnapshot
  pub consented_at : Option Time
  pub created_at : Time
  pub end_reason : Option SupportSessionEndReason
  pub ended_at : Option Time
  pub family_id : Str
  pub guide_decision : Option GuideDecision
  pub guide_draft_id : Option Str
  pub guide_generation_job_id : Option Str
  pub guide_id : Option Str
  pub guide_material_batch_id : Option Str
  pub id : Str
  pub live_kit_room_name : Str
  pub revision : ℕ
  pub started_at : Option Time
  pub status : SupportSessionStatus
  pub support_request_id : Str
  pub updated_at : Time
  pub user_id : Str

pub data Body : Type 0 where
  pair_body : RequestSnapshot → SessionSnapshot → Body
  session_body : SessionSnapshot → Body
  request_body : RequestSnapshot → Body
  run_body : GuideRun → Body
  job_body : GuideGenerationJob → Body
  error_body : ErrorCode → Str → Body
  raw : Str → Body

-- `json.Valid`.
abbrev pub json_valid : Body → Bool
json_valid (raw s) = false
json_valid _ = true

-- `len(body) == 0`.
abbrev pub is_empty : Body → Bool
is_empty (raw []) = true
is_empty _ = false

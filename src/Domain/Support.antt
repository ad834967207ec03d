-- ===== src/Domain/Support.antt =====
-- server/internal/domain/support.go and support_session_rules.go: support requests, support
-- sessions, and the rules under which a session starts, is accepted, is resolved and ends.
pub mod Rules
use mite.Prelude.{
  ℕ, Bool, true, false, ◌&&◌, ◌||◌, not, Option, none, some, [], ◌++◌, if◌then◌else◌, ltb, ◌==◌,
  ◌!=◌, eq_nat, is_nil, points_to, ok,
}
use mite.Text.{Str, eq_str, ascii}
use mite.Domain.Errors.{Res, fail, validation_error, forbidden, invalid_state, revision_conflict}
use mite.Domain.Enums.{
  Role, SupportRequestStatus, SupportAcknowledgementKind, SupportSessionStatus, GuideDecision,
  SupportSessionEndReason, GuideGenerationJobStatus, eq_support_request_status,
  eq_support_session_status, eq_support_session_end_reason, eq_guide_generation_job_status,
}
use mite.Domain.Status.{decision_valid}
use mite.Domain.Value.{DomainId}
use mite.Domain.User.{Actor}

-- `time.Time`, in nanoseconds; the zero time is 0.
abbrev pub Time : Type 0
Time = ℕ

pub record GuideContext : Type 0 where
  pub guide_run_id : DomainId
  pub guide_id : DomainId
  pub guide_version_number : ℕ
  pub step_number : ℕ
  pub guide_title : Str
  pub step_instruction : Str
  pub step_artifact_id : DomainId

pub record SupportRequest : Type 0 where
  pub id : DomainId
  pub user_id : DomainId
  pub family_id : DomainId
  pub initial_screenshot_artifact_id : DomainId
  pub comment : Str
  pub status : SupportRequestStatus
  pub support_session_id : Option DomainId
  pub guide_context : Option GuideContext
  pub acknowledged_at : Option Time
  pub acknowledgement_kind : Option SupportAcknowledgementKind
  pub estimated_support_at : Option Time
  pub created_at : Time
  pub updated_at : Time
  pub revision : ℕ

pub record Consent : Type 0 where
  pub audio : Bool
  pub screen_share : Bool
  pub periodic_capture : Bool
  pub text_version : Str

-- `Consent.Accepted`.
unfoldable pub accepted : Consent → Bool
accepted c = c.audio && c.screen_share && c.periodic_capture && c.text_version == ascii "v4"

pub record SupportSession : Type 0 where
  pub id : DomainId
  pub support_request_id : DomainId
  pub user_id : DomainId
  pub family_id : DomainId
  pub live_kit_room_name : Str
  pub status : SupportSessionStatus
  pub guide_decision : Option GuideDecision
  pub guide_material_batch_id : Option DomainId
  pub guide_generation_job_id : Option DomainId
  pub guide_draft_id : Option DomainId
  pub guide_id : Option DomainId
  pub consent : Option Consent
  pub consented_at : Option Time
  pub started_at : Option Time
  pub ended_at : Option Time
  pub end_reason : Option SupportSessionEndReason
  pub created_at : Time
  pub updated_at : Time
  pub revision : ℕ

-- The zero values of the two structs.
abbrev pub zero_request : SupportRequest
zero_request = record {
  id = [];
  user_id = [];
  family_id = [];
  initial_screenshot_artifact_id = [];
  comment = [];
  status = SupportRequestStatus.other [];
  support_session_id = none;
  guide_context = none;
  acknowledged_at = none;
  acknowledgement_kind = none;
  estimated_support_at = none;
  created_at = 0;
  updated_at = 0;
  revision = 0;
}

abbrev pub zero_session : SupportSession
zero_session = record {
  id = [];
  support_request_id = [];
  user_id = [];
  family_id = [];
  live_kit_room_name = [];
  status = SupportSessionStatus.other [];
  guide_decision = none;
  guide_material_batch_id = none;
  guide_generation_job_id = none;
  guide_draft_id = none;
  guide_id = none;
  consent = none;
  consented_at = none;
  started_at = none;
  ended_at = none;
  end_reason = none;
  created_at = 0;
  updated_at = 0;
  revision = 0;
}

unfoldable pub new_ringing_session : DomainId → SupportRequest → Time → Res SupportSession
new_ringing_session id request now =
    if request.status != SupportRequestStatus.pending || not (is_nil request.support_session_id)
    then fail invalid_state
    else ok (record {
      id = id;
      support_request_id = request.id;
      user_id = request.user_id;
      family_id = request.family_id;
      live_kit_room_name = ascii "mite-" ++ id;
      status = SupportSessionStatus.ringing;
      guide_decision = none;
      guide_material_batch_id = none;
      guide_generation_job_id = none;
      guide_draft_id = none;
      guide_id = none;
      consent = none;
      consented_at = none;
      started_at = none;
      ended_at = none;
      end_reason = none;
      created_at = now;
      updated_at = now;
      revision = 1;
    })

unfoldable pub validate_expected_revision : ℕ → ℕ → Res (Unit {0})
validate_expected_revision actual expected =
    if ltb expected 1
    then fail validation_error
    else if actual != expected
    then fail revision_conflict
    else ok tt

unfoldable pub validate_accept : SupportSession → SupportRequest → Consent → Res (Unit {0})
unfolding accepted
validate_accept session request consent =
    if session.status != SupportSessionStatus.ringing
      || request.status != SupportRequestStatus.pending
      || not (points_to request.support_session_id session.id)
    then fail invalid_state
    else if not (accepted consent)
    then fail validation_error
    else ok tt

unfoldable pub validate_resolve : SupportSession → SupportRequest → GuideDecision → Res (Unit {0})
unfolding decision_valid
validate_resolve session request decision =
    if not (decision_valid decision)
    then fail validation_error
    else if session.status != SupportSessionStatus.active
        || request.status != SupportRequestStatus.in_support
        || not (points_to request.support_session_id session.id)
    then fail invalid_state
    else ok tt

-- The two cases of the switch in `ValidateEndWithoutGuide`.
end_as_user : SupportSession → SupportSessionEndReason → Res (Unit {0})
end_as_user session reason =
    if reason != SupportSessionEndReason.no_materials
    then fail forbidden
    else if session.status != SupportSessionStatus.generating_guide
        || not (is_nil session.guide_material_batch_id)
        || not (is_nil session.guide_generation_job_id)
    then fail invalid_state
    else ok tt

end_as_family :
    SupportSession → SupportSessionEndReason → Option GuideGenerationJobStatus → Res (Unit {0})
end_as_family session reason job_status =
    if reason != SupportSessionEndReason.guide_cancelled
    then fail forbidden
    else if session.status == SupportSessionStatus.reviewing_guide
    then ok tt
    else if session.status != SupportSessionStatus.generating_guide
    then fail invalid_state
    else if not (is_nil session.guide_generation_job_id)
        && not (points_to job_status GuideGenerationJobStatus.failed)
    then fail invalid_state
    else ok tt

end_as :
    Role
    → SupportSession
    → SupportSessionEndReason
    → Option GuideGenerationJobStatus
    → Res (Unit {0})
unfolding end_as_user end_as_family
end_as Role.user session reason job_status = end_as_user session reason
end_as Role.family session reason job_status = end_as_family session reason job_status
end_as (Role.other s) session reason job_status = fail forbidden

unfoldable pub validate_end_without_guide :
    SupportSession
    → Actor
    → SupportSessionEndReason
    → Option GuideGenerationJobStatus
    → Res (Unit {0})
unfolding end_as
validate_end_without_guide session actor = end_as actor.role session

-- `AllowsLiveKit`.
unfoldable pub allows_live_kit : SupportSessionStatus → Bool
allows_live_kit s =
    s == SupportSessionStatus.active
    || s == SupportSessionStatus.generating_guide
    || s == SupportSessionStatus.reviewing_guide
    || s == SupportSessionStatus.guide_saved

unfoldable pub validate_end_saved : SupportSession → Res (Unit {0})
validate_end_saved session =
    if session.status != SupportSessionStatus.guide_saved
      || is_nil session.guide_id
      || is_nil session.guide_draft_id
    then fail invalid_state
    else ok tt

-- ===== src/Domain/Event.antt =====
-- server/internal/domain/event.go: what the clients are told after a commit.
use mite.Prelude.{ℕ}
use mite.Json.{RequestSnapshot, SessionSnapshot}
use mite.Domain.Value.{DomainId}
use mite.Domain.User.{UserPair}
use mite.Domain.Support.{Time}
use mite.Domain.Guide.{GuideRun, GuideGenerationJob, GuideDraft}

pub data EventType : Type 0 where
  support_request_created support_request_updated : EventType
  support_session_created support_session_updated : EventType
  guide_material_batch_created guide_material_batch_updated : EventType
  guide_generation_job_created guide_generation_job_updated : EventType
  guide_draft_created guide_draft_updated guide_created : EventType
  guide_run_created guide_run_updated : EventType

-- The JSON document of an event, by its content.
pub data EventData : Type 0 where
  request_data : RequestSnapshot → EventData
  session_data : SessionSnapshot → EventData
  run_data : GuideRun → EventData
  job_data : GuideGenerationJob → EventData
  draft_data : GuideDraft → EventData

pub record Event : Type 0 where
  pub event_id : DomainId
  pub type : EventType
  pub occurred_at : Time
  pub entity_id : DomainId
  pub revision : ℕ
  pub content : EventData
  pub audience : UserPair

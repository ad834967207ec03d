-- ===== src/Repository/Generation/Rows.antt =====
-- The rows of `guide_generation_jobs` that the updates of db/queries/guides.sql return, and the joins that
-- read them.
use mite.Prelude.{ℕ, ◌+◌, Bool, Option, none, some, if◌then◌else◌, ltb, ◌==◌, eq_nat}
use mite.Text.{Str, eq_str}
use mite.Domain.Enums.{
  GuideGenerationJobStatus, eq_guide_generation_job_status, eq_support_session_status,
}
use mite.Domain.Value.{DomainId}
use mite.Domain.Artifact.{Artifact}
use mite.Domain.Guide.{GuideGenerationJob, GuideGenerationErrorCode}
use mite.Domain.Support.{Time, SupportRequest, SupportSession}
use mite.Repository.{Db}

abbrev pub is_queued : GuideGenerationJob → Bool
is_queued job = job.status == GuideGenerationJobStatus.queued

abbrev pub is_running_job : GuideGenerationJob → Bool
is_running_job job = job.status == GuideGenerationJobStatus.running

-- The rows that the updates return.
abbrev pub claimed_job : Time → GuideGenerationJob → GuideGenerationJob
claimed_job now job = record job {
  status = GuideGenerationJobStatus.running;
  attempt = job.attempt + 1;
  started_at = some now;
  finished_at = none;
  error_code = none;
  updated_at = now;
  revision = job.revision + 1;
}

abbrev pub retried_job : Time → GuideGenerationJob → GuideGenerationJob
retried_job now job = record job {
  status = GuideGenerationJobStatus.queued;
  error_code = none;
  started_at = none;
  finished_at = none;
  updated_at = now;
  revision = job.revision + 1;
}

abbrev pub failed_job : GuideGenerationErrorCode → Time → GuideGenerationJob → GuideGenerationJob
failed_job code now job = record job {
  status = GuideGenerationJobStatus.failed;
  guide_draft_id = none;
  error_code = some code;
  finished_at = some now;
  updated_at = now;
  revision = job.revision + 1;
}

abbrev pub succeeded_job : DomainId → Time → GuideGenerationJob → GuideGenerationJob
succeeded_job draft_id now job = record job {
  status = GuideGenerationJobStatus.succeeded;
  guide_draft_id = some draft_id;
  error_code = none;
  finished_at = some now;
  updated_at = now;
  revision = job.revision + 1;
}

-- `CASE WHEN attempt < 3`, column by column.
unfoldable pub recovered_job : Time → GuideGenerationJob → GuideGenerationJob
recovered_job now job = record job {
  status =
      if ltb job.attempt 3
      then GuideGenerationJobStatus.queued
      else GuideGenerationJobStatus.failed;
  started_at = if ltb job.attempt 3 then none else job.started_at;
  finished_at = if ltb job.attempt 3 then none else some now;
  error_code = if ltb job.attempt 3 then none else some GuideGenerationErrorCode.worker_restarted;
  updated_at = now;
  revision = job.revision + 1;
}

-- What follows a row that may be missing.
abbrev then_row {ℓ κ} : {A : Type ℓ} {B : Type κ} → Option A → (A → Option B) → Option B
then_row none f = none
then_row (some a) f = f a

-- The join of `GetGuideSessionByJobID`.
unfoldable pub session_of_job : Db → DomainId → Option SupportSession
session_of_job db id =
    then_row (db.jobs id)
      λ job. then_row (db.batches job.batch_id) λ session_id. db.sessions session_id

pub record GenerationContext : Type 0 where
  pub job_id : DomainId
  pub batch_id : DomainId
  pub job_revision : ℕ
  pub support_session_id : DomainId
  pub support_request_id : DomainId
  pub user_id : DomainId
  pub family_id : DomainId
  pub comment : Str
  pub initial_screenshot_artifact_id : DomainId
  pub initial_storage_key : Str
  pub initial_captured_at : Time

abbrev context_row :
    GuideGenerationJob → SupportSession → SupportRequest → Artifact → GenerationContext
context_row job session request artifact = record {
  job_id = job.id;
  batch_id = job.batch_id;
  job_revision = job.revision;
  support_session_id = session.id;
  support_request_id = session.support_request_id;
  user_id = session.user_id;
  family_id = session.family_id;
  comment = request.comment;
  initial_screenshot_artifact_id = request.initial_screenshot_artifact_id;
  initial_storage_key = artifact.storage_key;
  initial_captured_at = artifact.captured_at;
}

-- The join of `GetGuideGenerationContext`.
unfoldable pub context_of_job : Db → DomainId → Option GenerationContext
unfolding session_of_job
context_of_job db id = then_row (db.jobs id) λ job. then_row (session_of_job db id) λ session.
    then_row (db.requests session.support_request_id) λ request.
      then_row (db.artifacts request.initial_screenshot_artifact_id)
        λ artifact. some (context_row job session request artifact)

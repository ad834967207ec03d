-- ===== src/Repository/Generation.antt =====
-- The statements of db/queries/guides.sql about generation jobs and the drafts that they give, with
-- server/internal/repository/guides.go. The worker and a retry run one after the other, so no row is
-- locked by another.
pub mod Rows
unfoldable pub use Rows.*
use mite.Prelude.{
  ℕ, ◌+◌, Bool, true, false, ◌&&◌, ◌||◌, Option, none, some, List, [], ◌∷◌, ◌++◌, if◌then◌else◌,
  ltb, write, ◌==◌, eq_nat, ok, err,
}
use mite.Text.{Str, eq_str}
use mite.Domain.Errors.{no_rows}
use mite.Domain.Enums.{
  GuideGenerationJobStatus, eq_guide_generation_job_status, GuideDraftStatus, SupportSessionStatus,
  eq_support_session_status,
}
use mite.Domain.Value.{DomainId}
use mite.Domain.Artifact.{Artifact}
use mite.Domain.Guide.{GuideGenerationJob, GuideGenerationErrorCode, GuideDraft}
use mite.Domain.Support.{Time, SupportRequest, SupportSession}
use mite.Repository.{Db, Tx, Query, guarded}
use mite.Repository.Runs.{one}
use mite.Repository.Sessions.{touch_session}

abbrev pub put_job : DomainId → GuideGenerationJob → Db → Db
put_job id job db = record db { jobs = write db.jobs id (some job) }

-- `UPDATE … WHERE id = $1 AND … RETURNING *`.
abbrev pub update_job :
    (GuideGenerationJob → Bool)
    → (GuideGenerationJob → GuideGenerationJob)
    → DomainId
    → Option GuideGenerationJob
    → Tx GuideGenerationJob
update_job p f id none db = (err no_rows, db)
update_job p f id (some job) db = elim (p job) [
  | true ↦ (ok (f job), put_job id (f job) db)
  | false ↦ (err no_rows, db)
]

-- `status = 'RUNNING' AND revision = expected`.
abbrev pub claimed_at : ℕ → GuideGenerationJob → Bool
claimed_at expected job = is_running_job job && job.revision == expected

-- `ORDER BY created_at, id LIMIT 1`, where `before` is the order of the ids in the database.
abbrev pub older : (Str → Str → Bool) → GuideGenerationJob → GuideGenerationJob → Bool
older before job other =
    ltb job.created_at other.created_at
    || (job.created_at == other.created_at && before job.id other.id)

abbrev pub oldest :
    (Str → Str → Bool)
    → Option GuideGenerationJob
    → Option GuideGenerationJob
    → Option GuideGenerationJob
oldest before none rest = rest
oldest before (some job) none = if is_queued job then some job else none
oldest before (some job) (some other) =
    if is_queued job && older before job other then some job else some other

unfoldable pub next_queued :
    (Str → Str → Bool)
    → (DomainId → Option GuideGenerationJob)
    → List DomainId
    → Option GuideGenerationJob
next_queued before jobs [] = none
next_queued before jobs (id ∷ ids) = oldest before (jobs id) (next_queued before jobs ids)

abbrev pub claim_candidate : Time → Option GuideGenerationJob → Tx GuideGenerationJob
claim_candidate now none db = (err no_rows, db)
claim_candidate now (some candidate) db =
    update_job (λ job. true) (claimed_job now) candidate.id (db.jobs candidate.id) db

-- `UPDATE … WHERE status = 'RUNNING'`: a row after it, and the rows that it returns.
abbrev pub recovered_row : Time → Option GuideGenerationJob → Option GuideGenerationJob
recovered_row now none = none
recovered_row now (some job) = some (if is_running_job job then recovered_job now job else job)

abbrev pub add_recovered :
    Time → Option GuideGenerationJob → List GuideGenerationJob → List GuideGenerationJob
add_recovered now none rest = rest
add_recovered now (some job) rest =
    if is_running_job job then recovered_job now job ∷ rest else rest

unfoldable pub recovered_rows :
    Time → (DomainId → Option GuideGenerationJob) → List DomainId → List GuideGenerationJob
unfolding recovered_job
recovered_rows now jobs [] = []
recovered_rows now jobs (id ∷ ids) = add_recovered now (jobs id) (recovered_rows now jobs ids)

-- `INSERT INTO guide_drafts … RETURNING *`.
abbrev pub draft_row : GuideDraft → GuideDraft
draft_row value = record value {
  position = if ltb value.position 1 then 1 else value.position;
  status = GuideDraftStatus.editing;
  revision = 1;
  updated_at = value.created_at;
}

abbrev pub add_draft : GuideDraft → Db → Db
add_draft row db = record db {
  drafts = λ id. if row.support_session_id == id then db.drafts id ++ row ∷ [] else db.drafts id;
}

abbrev pub reviewing : DomainId → Time → SupportSession → SupportSession
reviewing draft_id now session = record (touch_session now session) {
  status = SupportSessionStatus.reviewing_guide;
  guide_draft_id = some draft_id;
}

abbrev pub review_row : DomainId → DomainId → Time → Option SupportSession → Tx SupportSession
review_row id draft_id now none db = (err no_rows, db)
review_row id draft_id now (some s) db = elim (s.status == SupportSessionStatus.generating_guide) [
  | true ↦ (
    ok (reviewing draft_id now s),
    record db { sessions = write db.sessions id (some (reviewing draft_id now s)) },
  )
  | false ↦ (err no_rows, db)
]

module _ (refuses : Query → Bool) where
  unfoldable pub claim_job : (Str → Str → Bool) → Time → Tx GuideGenerationJob
  unfolding next_queued
  claim_job before now db =
      guarded (refuses Query.claim_job)
        (claim_candidate now (next_queued before db.jobs db.job_ids)) db

  unfoldable pub recover_jobs : Time → Tx (List GuideGenerationJob)
  unfolding recovered_job recovered_rows
  recover_jobs now db =
      guarded (refuses Query.recover_jobs)
        (λ db. (
          ok (recovered_rows now db.jobs db.job_ids),
          record db { jobs = λ id. recovered_row now (db.jobs id) },
        ))
        db

  unfoldable pub get_job : DomainId → Bool → Tx GuideGenerationJob
  get_job id true db = guarded (refuses Query.lock_job) (one (db.jobs id)) db
  get_job id false db = guarded (refuses Query.get_job) (one (db.jobs id)) db

  unfoldable pub retry_job : DomainId → Time → Tx GuideGenerationJob
  retry_job id now db =
      guarded (refuses Query.retry_job) (update_job (λ job. true) (retried_job now) id (db.jobs id))
        db

  unfoldable pub fail_job : DomainId → ℕ → GuideGenerationErrorCode → Time → Tx GuideGenerationJob
  fail_job id expected code now db =
      guarded (refuses Query.fail_job)
        (update_job (claimed_at expected) (failed_job code now) id (db.jobs id)) db

  unfoldable pub succeed_job : DomainId → ℕ → DomainId → Time → Tx GuideGenerationJob
  succeed_job id expected draft_id now db =
      guarded (refuses Query.succeed_job)
        (update_job (claimed_at expected) (succeeded_job draft_id now) id (db.jobs id)) db

  unfoldable pub get_session_by_job : DomainId → Tx SupportSession
  unfolding session_of_job
  get_session_by_job id db = guarded (refuses Query.session_by_job) (one (session_of_job db id)) db

  -- `GetSession` of the guides' store.
  unfoldable pub get_guide_session : DomainId → Bool → Tx SupportSession
  get_guide_session id true db =
      guarded (refuses Query.lock_guide_session) (one (db.sessions id)) db
  get_guide_session id false db = guarded (refuses Query.guide_session) (one (db.sessions id)) db

  unfoldable pub get_generation_context : DomainId → Tx GenerationContext
  unfolding context_of_job
  get_generation_context id db =
      guarded (refuses Query.generation_context) (one (context_of_job db id)) db

  unfoldable pub create_draft : GuideDraft → Tx GuideDraft
  create_draft value db =
      guarded (refuses Query.create_draft)
        (λ db. (ok (draft_row value), add_draft (draft_row value) db)) db

  unfoldable pub review_draft : DomainId → DomainId → Time → Tx SupportSession
  review_draft id draft_id now db =
      guarded (refuses Query.review_draft) (review_row id draft_id now (db.sessions id)) db

-- ===== src/Service/Generation/Once.antt =====
-- With nothing refused, `RunOnce` of server/internal/service/guide_worker.go brings the job that it claims
-- to an end.
use mite.Prelude.{ℕ, ◌≡◌, Bool, true, Option, none, some, ok, List, Result, eq_nat}
use mite.Text.{Str, eq_str}
use mite.Domain.Enums.{
  eq_guide_generation_job_status, SupportSessionStatus, eq_support_session_status,
}
use mite.Domain.Value.{DomainId}
use mite.Domain.Event.{Event}
use mite.Domain.Guide.{GuideGenerationJob, GeneratedGuide}
use mite.Domain.Support.{Time, SupportSession}
use mite.Repository.{Db}
use mite.Repository.Generation.{
  GenerationContext, claimed_job, put_job, next_queued, session_of_job,
}
use mite.Service.Generation.{AttemptError}
use mite.Service.Generation.Attempts.{Attempted}
use mite.Service.Generation.Evolves.{IsFiled}
use mite.Service.Generation.Ends.{IsSessionFiled}
use mite.Service.Generation.Settles.{IsSettled, Settles}

session_id_or : DomainId → Option GenerationContext → DomainId
session_id_or id none = id
session_id_or id (some context) = context.support_session_id

-- What `RunOnce` returns, and where it leaves the job.
abbrev pub Finishes : DomainId → Attempted → Type 0
Finishes id (r, db, events) =
    (r ≡ (true, ok tt)) × ((job : GuideGenerationJob) × (db.jobs id ≡ some job) × IsSettled job)

module _ {Input : Type 0} (load : GenerationContext → Result AttemptError Input)
    (artifacts : Input → List DomainId)
    (generate : Input → Result AttemptError (List GeneratedGuide)) (expired : Bool)
    (started now later : Time) (fresh rest : Str → ℕ → DomainId) where
  module _ (before : Str → Str → Bool) (db : Db) (job : GuideGenerationJob)
      (session : SupportSession) (filed : IsFiled db.jobs) (sessions_filed : IsSessionFiled db)
      (next : next_queued before db.jobs db.job_ids ≡ some job)
      (there : session_of_job db job.id ≡ some session)
      (waits : session.status ≡ SupportSessionStatus.generating_guide) where
    -- The job and the table after the claim.
    abbrev claimed : GuideGenerationJob
    claimed = claimed_job started job

    abbrev table : Db
    table = put_job job.id claimed db

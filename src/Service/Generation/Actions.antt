-- ===== src/Service/Generation/Actions.antt =====
-- What happens to generation jobs (server/internal/service/guide_worker.go, and the retry in guides.go).
use mite.Prelude.{ℕ, Bool, List, [], ◌∷◌}
use mite.Text.{Str}
use mite.Domain.Value.{DomainId}
use mite.Domain.Guide.{GuideGenerationJob, GeneratedGuide}
use mite.Domain.Support.{Time}
use mite.Repository.{Db, Query, transact}
use mite.Repository.Generation.{GenerationContext}
use mite.Service.Env.{Payload}
use mite.Service.Generation.{
  AttemptError, generation_error_code, recover, claim_work, finish_failure, finish_success,
}
use mite.Service.Generation.Attempts.{RetryGuideGenerationJobCommand, retry_guide_generation_job}

-- What happens to the jobs: a start of the worker, a claim, the ends of attempts, and a retry. Any
-- job and context may be handed to the end of an attempt, so those of a worker that was replaced too.
pub data JobAction : Type 0 where
  restarts : (Query → Bool) → Time → Time → (Str → ℕ → DomainId) → JobAction
  claims : (Query → Bool) → Time → Time → (Str → ℕ → DomainId) → (Str → Str → Bool) → JobAction
  fails :
      (Query → Bool)
      → Time
      → Time
      → (Str → ℕ → DomainId)
      → GuideGenerationJob
      → GenerationContext
      → Bool
      → AttemptError
      → JobAction
  succeeds :
      (Query → Bool)
      → Time
      → Time
      → (Str → ℕ → DomainId)
      → GuideGenerationJob
      → GenerationContext
      → List GeneratedGuide
      → JobAction
  retries :
      (Query → Bool)
      → Time
      → Time
      → DomainId
      → (Payload → Str)
      → Time
      → RetryGuideGenerationJobCommand
      → JobAction

unfoldable pub act : JobAction → Db → Db
unfolding recover claim_work finish_failure generation_error_code finish_success
    retry_guide_generation_job
act (JobAction.restarts refuses now later fresh) db = (recover refuses now later fresh db).1
act (JobAction.claims refuses now later fresh before) db =
    (transact (refuses Query.commit) (claim_work refuses now later fresh before) db).1
act (JobAction.fails refuses now later fresh claimed context expired e) db =
    (finish_failure refuses now later fresh claimed context (generation_error_code expired e) db).1
act (JobAction.succeeds refuses now later fresh claimed context outputs) db =
    (finish_success refuses now later fresh claimed context outputs db).1
act (JobAction.retries refuses now later event_id digest begun command) db =
    (retry_guide_generation_job refuses now later event_id digest begun command db).1

unfoldable pub act_all : List JobAction → Db → Db
unfolding act
act_all [] db = db
act_all (action ∷ actions) db = act_all actions (act action db)

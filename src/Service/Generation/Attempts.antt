-- ===== src/Service/Generation/Attempts.antt =====
-- An attempt of the worker in server/internal/service/guide_worker.go, and the retry of a job in
-- guides.go.
use mite.Prelude.{
  ℕ, Bool, true, false, ◌||◌, not, Option, none, some, List, [], ◌∷◌, ◌++◌, if◌then◌else◌, ltb, leb,
  ◌==◌, ◌!=◌, eq_nat, points_to, Result, ok, err, fail_if,
}
use mite.Prelude
use mite.Text.{Str, ascii, eq_str}
use mite.Json.{Body, raw, job_body}
use mite.Domain.Errors.{Res, domain, no_rows, failure, fail, invalid_state, validation_error}
use mite.Domain.Enums.{
  Role, GuideGenerationJobStatus, eq_guide_generation_job_status, SupportSessionStatus,
  eq_support_session_status,
}
use mite.Domain.Value.{DomainId}
use mite.Domain.User.{Actor, authorize}
use mite.Domain.Guide.{
  GuideGenerationJob, GuideGenerationErrorCode, GeneratedGuide, validate_generated_guides,
  max_guide_job_attempts,
}
use mite.Domain.Event.{Event}
use mite.Domain.Support.{Time, SupportSession}
use mite.Repository.{Db, Tx, Query, pure, lift, transact, ◌>>=◌}
use mite.Repository.Generation.{
  GenerationContext, get_job, retry_job, get_session_by_job, get_guide_session,
  get_generation_context,
}
use mite.Service.Env.{Outcome, Payload, job_revision_payload}
use mite.Service.Session.Common.{session_pair}
use mite.Service.Run.{validate_actor_role, check_revision}
use mite.Service.Stored.{CommandMeta, translate_repository_error, idempotent}
use mite.Service.Generation.{
  AttemptError, failure_of, generation_error_code, job_event, claim_work, finish_failure,
  finish_success,
}

-- `(bool, error)`: whether there was a job, and what went wrong; and the database and the events.
abbrev pub Attempted : Type 0
Attempted = (Bool × Res (Unit {0})) × Db × List Event

-- What `finishFailure` and `finishSuccess` return, after the events of the claim.
abbrev pub after_attempt : List Event → Outcome (Unit {0}) → Attempted
after_attempt events (r, db, told) = ((true, r), db, events ++ told)

-- Without a context: what `RunOnce` takes from the job and its session.
abbrev pub bare_context : GuideGenerationJob → SupportSession → GenerationContext
bare_context job session = record {
  job_id = job.id;
  batch_id = job.batch_id;
  job_revision = job.revision;
  support_session_id = session.id;
  support_request_id = session.support_request_id;
  user_id = session.user_id;
  family_id = session.family_id;
  comment = [];
  initial_screenshot_artifact_id = [];
  initial_storage_key = [];
  initial_captured_at = 0;
}

-- `load` is `loadInput`, `artifacts` the ids of its images, `generate` the generator, and `expired` tells
-- whether the time of the attempt is over.
module _ {Input : Type 0} (load : GenerationContext → Result AttemptError Input)
    (artifacts : Input → List DomainId)
    (generate : Input → Result AttemptError (List GeneratedGuide)) (expired : Bool) where
  abbrev pub checked_output :
      List GeneratedGuide → Res (Unit {0}) → Result AttemptError (List GeneratedGuide)
  checked_output outputs (err e) = err (failure_of GuideGenerationErrorCode.ai_invalid_output)
  checked_output outputs (ok _) = ok outputs

  -- What an attempt gives.
  unfoldable pub produce : GenerationContext → Result AttemptError (List GeneratedGuide)
  unfolding validate_generated_guides
  produce context = Prelude.◌>>=◌ (load context) λ input.
      Prelude.◌>>=◌ (generate input)
        λ outputs. checked_output outputs (validate_generated_guides outputs (artifacts input))

  -- `rest` gives the ids that are drawn after the claim.
  module _ (first middle last : Query → Bool) (started now later : Time)
      (fresh rest : Str → ℕ → DomainId) where
    abbrev pub finish_attempt :
        GuideGenerationJob
        → GenerationContext
        → Result AttemptError (List GeneratedGuide)
        → Db
        → Outcome (Unit {0})
    finish_attempt job context (err e) =
        finish_failure last now later rest job context (generation_error_code expired e)
    finish_attempt job context (ok outputs) = finish_success last now later rest job context outputs

    abbrev pub with_context :
        GuideGenerationJob → SupportSession → Res GenerationContext → Db → Outcome (Unit {0})
    with_context job session (err e) =
        finish_failure last now later rest job (bare_context job session)
          GuideGenerationErrorCode.ai_input_unavailable
    with_context job session (ok context) = finish_attempt job context (produce context)

    -- What follows the claim. The context is read in a transaction of its own.
    abbrev pub after_claim :
        Res ((GuideGenerationJob × SupportSession) × List Event) × Db → Attempted
    after_claim (err no_rows, db) = ((false, ok tt), db, [])
    after_claim (err e, db) = ((false, err (translate_repository_error e)), db, [])
    after_claim (ok ((job, session), events), db) = after_attempt events (
        with_context job session
          (transact (middle Query.commit) (get_generation_context middle job.id) db).0 db)

    -- `RunOnce`, with no other transaction between its own.
    unfoldable pub run_once : (Str → Str → Bool) → Db → Attempted
    unfolding claim_work get_generation_context finish_failure finish_success generation_error_code
        produce
    run_once before db =
        after_claim (transact (first Query.commit) (claim_work first started later fresh before) db)

-- `RetryGuideGenerationJobCommand`.
pub record RetryGuideGenerationJobCommand : Type 0 where
  pub meta : CommandMeta
  pub job_id : DomainId
  pub expected_job_revision : ℕ

-- What reading the envelope of a job gives: a document of another shape leaves the zero value.
abbrev pub zero_job : GuideGenerationJob
zero_job = record {
  id = [];
  batch_id = [];
  status = GuideGenerationJobStatus.other [];
  attempt = 0;
  guide_draft_id = none;
  error_code = none;
  created_at = 0;
  started_at = none;
  finished_at = none;
  updated_at = 0;
  revision = 0;
}

unfoldable pub job_of_body : Body → Res GuideGenerationJob
job_of_body (raw s) = err failure
job_of_body (job_body job) = ok job
job_of_body _ = ok zero_job

abbrev pub retry_path : DomainId → Str
retry_path id = ascii "/v1/guide-generation-jobs/" ++ id ++ ascii "/retry"

-- The job failed, has an attempt left, and is the one of a session that waits for its guide.
abbrev pub can_retry : GuideGenerationJob → SupportSession → Bool
can_retry job session = not (
    job.status != GuideGenerationJobStatus.failed
    || leb max_guide_job_attempts job.attempt
    || session.status != SupportSessionStatus.generating_guide
    || not (points_to session.guide_generation_job_id job.id))

module _ (refuses : Query → Bool) where
  unfoldable pub hold_failed : Actor → DomainId → ℕ → Tx (GuideGenerationJob × SupportSession)
  unfolding get_job get_session_by_job get_guide_session check_revision authorize
  hold_failed actor id expected = do
    unlocked_job ← get_job refuses id false
    unlocked_session ← get_session_by_job refuses unlocked_job.id
    session ← get_guide_session refuses unlocked_session.id true
    job ← get_job refuses id true
    _ ← lift (authorize (session_pair session) actor (Role.family ∷ []))
    _ ← lift (check_revision job.revision expected)
    _ ← lift (fail_if (not (can_retry job session)) (domain invalid_state))
    pure (job, session)

module _ (refuses : Query → Bool) (now later : Time) (event_id : DomainId) where
  abbrev pub retry_held : GuideGenerationJob × SupportSession → Tx (GuideGenerationJob × List Event)
  retry_held (job, session) = retry_job refuses job.id now >>= λ retried.
      pure (retried, job_event event_id later retried (session_pair session) ∷ [])

  -- What `RetryGuideGenerationJob` does inside `idempotent`.
  unfoldable pub retry_work : Actor → DomainId → ℕ → Tx (GuideGenerationJob × List Event)
  unfolding hold_failed retry_job
  retry_work actor id expected = hold_failed refuses actor id expected >>= retry_held

  unfoldable pub retry_guide_generation_job :
      (Payload → Str) → Time → RetryGuideGenerationJobCommand → Db → Outcome GuideGenerationJob
  unfolding validate_actor_role retry_work job_of_body idempotent
  retry_guide_generation_job digest begun command db =
      elim (validate_actor_role command.meta.actor Role.family) [
        | err e ↦ (err e, db, [])
        | ok _ ↦
            if ltb command.expected_job_revision 1
            then (fail validation_error, db, [])
            else idempotent job_body job_of_body refuses begun command.meta
                (retry_path command.job_id)
                (digest (job_revision_payload command.expected_job_revision)) 202
                (retry_work command.meta.actor command.job_id command.expected_job_revision) db
      ]

-- ===== src/Service/Generation.antt =====
-- The generation of guides in server/internal/service/guide_worker.go: a job is claimed, the
-- generator is asked, and the job succeeds with drafts to review, or fails with a code; and the retry
-- of a failed job in guides.go. Each transaction has its own refused statements.
pub mod Attempts
pub mod Rows
pub mod Evolves
pub mod Statements
pub mod Works
pub mod Retry
pub mod Actions
pub mod Drafts
pub mod History
pub mod Told
pub mod Ends
pub mod Failure
pub mod Settles
pub mod Once
use mite.Prelude.{
  ℕ, ◌+◌, Bool, true, false, ◌&&◌, ◌||◌, length, not, Option, none, some, List, [], ◌∷◌, ◌++◌,
  if◌then◌else◌, ltb, leb, ◌==◌, ◌!=◌, eq_nat, points_to, Result, ok, err, fail_if,
}
use mite.Prelude
use mite.Text.{Str, ascii, eq_str}
use mite.Json.{Body, raw, job_body}
use mite.Domain.Errors.{
  Error, Res, domain, operation, no_rows, failure, fail, invalid_state, validation_error,
}
use mite.Domain.Enums.{
  Role, GuideGenerationJobStatus, eq_guide_generation_job_status, GuideDraftStatus,
  SupportSessionStatus, eq_support_session_status,
}
use mite.Domain.Value.{DomainId}
use mite.Domain.User.{UserPair, Actor, authorize}
use mite.Domain.Guide.{
  GuideGenerationJob, GuideGenerationErrorCode, error_code_valid, GuideDraft, GeneratedGuide,
  number_steps, validate_generated_guides, max_guide_job_attempts,
}
use mite.Domain.Event.{Event, EventType, EventData, job_data, draft_data, session_data}
use mite.Domain.Support.{Time, SupportSession}
use mite.Repository.{Db, Tx, Query, pure, lift, transact, ◌>>=◌}
use mite.Repository.Generation.{
  GenerationContext, is_running_job, claim_job, recover_jobs, get_job, retry_job, fail_job,
  succeed_job, get_session_by_job, get_guide_session, get_generation_context, create_draft,
  review_draft,
}
use mite.Service.Env.{Outcome, Payload, job_revision_payload}
use mite.Service.Snapshot.{session_snapshot}
use mite.Service.Session.Common.{session_pair}
use mite.Service.Run.{validate_actor_role, check_revision}
use mite.Service.Stored.{CommandMeta, translate_repository_error, idempotent}

-- `workerEvent` and `GuideService.event`.
abbrev pub job_event : DomainId → Time → GuideGenerationJob → UserPair → Event
job_event event_id now job pair = record {
  event_id = event_id;
  type = EventType.guide_generation_job_updated;
  occurred_at = now;
  entity_id = job.id;
  revision = job.revision;
  content = job_data job;
  audience = pair;
}

abbrev pub draft_event : DomainId → Time → GuideDraft → UserPair → Event
draft_event event_id now draft pair = record {
  event_id = event_id;
  type = EventType.guide_draft_created;
  occurred_at = now;
  entity_id = draft.id;
  revision = draft.revision;
  content = draft_data draft;
  audience = pair;
}

unfoldable pub review_event : DomainId → Time → SupportSession → UserPair → Event
unfolding session_snapshot
review_event event_id now session pair = record {
  event_id = event_id;
  type = EventType.support_session_updated;
  occurred_at = now;
  entity_id = session.id;
  revision = session.revision;
  content = session_data (session_snapshot session);
  audience = pair;
}

-- The end of a transaction of the worker, and `publish`.
abbrev pub announced : Res (List Event) × Db → Outcome (Unit {0})
announced (err e, db) = (err (translate_repository_error e), db, [])
announced (ok events, db) = (ok tt, db, events)

-- What an error of an attempt tells: whether `context.DeadlineExceeded` is in its chain, and the
-- code of the first `GuideGenerationFailure` in it.
pub record AttemptError : Type 0 where
  pub deadline : Bool
  pub code : Option GuideGenerationErrorCode

abbrev pub failure_of : GuideGenerationErrorCode → AttemptError
failure_of code = record { deadline = false; code = some code }

abbrev code_or_unavailable : Option GuideGenerationErrorCode → GuideGenerationErrorCode
code_or_unavailable none = GuideGenerationErrorCode.ai_unavailable
code_or_unavailable (some code) =
    if error_code_valid code then code else GuideGenerationErrorCode.ai_unavailable

-- `generationErrorCode`; `expired` is `ctx.Err()` being `context.DeadlineExceeded`.
unfoldable pub generation_error_code : Bool → AttemptError → GuideGenerationErrorCode
unfolding error_code_valid
generation_error_code expired e =
    if expired || e.deadline
    then GuideGenerationErrorCode.ai_timeout
    else code_or_unavailable e.code

-- `now` is the clock of the transaction and `later` that of its events; `fresh prefix k` is the k-th
-- random id of the prefix.
module _ (refuses : Query → Bool) (now later : Time) (fresh : Str → ℕ → DomainId) where
  abbrev pub drawn_id : ℕ → DomainId
  drawn_id k = fresh (ascii "evt_") k

  -- The loop of `Recover` over the jobs, from a given index.
  unfoldable pub recovered_events : ℕ → List GuideGenerationJob → Tx (List Event)
  unfolding get_session_by_job
  recovered_events k [] = pure []
  recovered_events k (job ∷ jobs) = do
    session ← get_session_by_job refuses job.id
    events ← recovered_events (k + 1) jobs
    pure (job_event (drawn_id k) later job (session_pair session) ∷ events)

  -- `Recover`.
  unfoldable pub recover : Db → Outcome (Unit {0})
  unfolding recover_jobs recovered_events
  recover db = announced (
      transact (refuses Query.commit) (do jobs ← recover_jobs refuses now; recovered_events 0 jobs)
        db)

  -- The first transaction of `RunOnce`.
  unfoldable pub claim_work :
      (Str → Str → Bool) → Tx ((GuideGenerationJob × SupportSession) × List Event)
  unfolding claim_job get_session_by_job
  claim_work before = do
    job ← claim_job refuses before now
    session ← get_session_by_job refuses job.id
    pure ((job, session), job_event (drawn_id 0) later job (session_pair session) ∷ [])

  module _ (claimed : GuideGenerationJob) (context : GenerationContext) where
    -- The job is still the one that was claimed.
    abbrev pub is_claimed : GuideGenerationJob → Bool
    is_claimed job = is_running_job job && job.revision == claimed.revision

    abbrev pub failed_with :
        GuideGenerationErrorCode → SupportSession → GuideGenerationJob → Tx (List Event)
    failed_with code session job = fail_job refuses job.id claimed.revision code now >>= λ failed.
        pure (job_event (drawn_id 0) later failed (session_pair session) ∷ [])

    unfoldable pub fail_work : GuideGenerationErrorCode → Tx (List Event)
    unfolding get_guide_session get_job fail_job
    fail_work code = do
      session ← get_guide_session refuses context.support_session_id true
      job ← get_job refuses claimed.id true
      if not (is_claimed job) then pure [] else failed_with code session job

    unfoldable pub finish_failure : GuideGenerationErrorCode → Db → Outcome (Unit {0})
    unfolding fail_work
    finish_failure code db = announced (transact (refuses Query.commit) (fail_work code) db)

    -- The draft of an output, before it is stored.
    abbrev pub new_draft : DomainId → ℕ → GeneratedGuide → GuideDraft
    new_draft session_id index output = record {
      id = fresh (ascii "draft_") index;
      support_session_id = session_id;
      position = index + 1;
      title = output.title;
      steps = number_steps 0 output.steps;
      status = GuideDraftStatus.editing;
      revision = 1;
      created_at = now;
      updated_at = now;
    }

    -- The loop over the outputs, from a given index.
    unfoldable pub create_drafts : DomainId → ℕ → List GeneratedGuide → Tx (List GuideDraft)
    unfolding create_draft
    create_drafts session_id index [] = pure []
    create_drafts session_id index (output ∷ outputs) = do
      draft ← create_draft refuses (new_draft session_id index output)
      drafts ← create_drafts session_id (index + 1) outputs
      pure (draft ∷ drafts)

    unfoldable pub draft_events : ℕ → UserPair → List GuideDraft → List Event
    draft_events k pair [] = []
    draft_events k pair (draft ∷ drafts) =
        draft_event (drawn_id k) later draft pair ∷ draft_events (k + 1) pair drafts

    -- The events of a success: of each draft, of the job and of the session.
    unfoldable pub review_events :
        GuideGenerationJob → SupportSession → List GuideDraft → List Event
    unfolding draft_events review_event
    review_events job session drafts =
        draft_events 0 (session_pair session) drafts
        ++ job_event (drawn_id (length drafts)) later job (session_pair session)
          ∷ review_event (drawn_id (length drafts + 1)) later session (session_pair session)
          ∷ []

    -- What follows the drafts. `drafts[0]` panics without a draft, which
    -- `ValidateGeneratedGuides` excludes; the transaction then rolls back.
    abbrev pub review_drafts :
        SupportSession → GuideGenerationJob → List GuideDraft → Tx (List Event)
    review_drafts session job [] = lift (err failure)
    review_drafts session job (draft ∷ drafts) =
        succeed_job refuses job.id claimed.revision draft.id now >>= λ succeeded.
        review_draft refuses session.id draft.id now >>= λ reviewed.
        pure (review_events succeeded reviewed (draft ∷ drafts))

    unfoldable pub succeed_work : List GeneratedGuide → Tx (List Event)
    unfolding get_guide_session get_job create_drafts draft_events succeed_job review_draft
        review_event
    succeed_work outputs = do
      session ← get_guide_session refuses context.support_session_id true
      job ← get_job refuses claimed.id true
      if not (is_claimed job) || session.status != SupportSessionStatus.generating_guide
          then pure []
          else create_drafts session.id 0 outputs >>= review_drafts session job

    unfoldable pub finish_success : List GeneratedGuide → Db → Outcome (Unit {0})
    unfolding succeed_work
    finish_success outputs db =
        announced (transact (refuses Query.commit) (succeed_work outputs) db)

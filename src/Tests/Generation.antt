-- ===== src/Tests/Generation.antt =====
-- A job is claimed, generated, left by a worker that stops, and tried again.
use mite.Prelude.{
  write_self, write-cases, ap, sym, ◌∙◌, inl, inr, Result, ℕ, ◌+◌, ◌≡◌, refl, Bool, true, false,
  none, some, List, [], ◌∷◌, ◌++◌, write, ltb, length, ok, err,
}
use mite.Text.{Str, ascii, eq_str}
use mite.Domain.Enums.{GuideGenerationJobStatus, SupportSessionStatus}
use mite.Domain.Value.{validate_text, DomainId}
use mite.Domain.Guide.{
  validate_generated_guide, validate_draft_content, number_steps, validate_steps, contains,
  validate_generated_guides, GuideGenerationJob, GuideGenerationErrorCode, GeneratedGuide,
  error_code_valid,
}
use mite.Domain.Support.{SupportSession}
use mite.Repository.{Db}
use mite.Repository.Generation.{
  context_of_job, GenerationContext, next_queued, recovered_job, recovered_rows, session_of_job,
}
use mite.Service.Generation.{
  AttemptError, claim_work, failure_of, generation_error_code, finish_failure, finish_success,
}
use mite.Service.Generation.Attempts.{bare_context, run_once}
use mite.Service.Generation.Rows.{row_fits}
use mite.Service.Generation.Evolves.{IsFiled}
use mite.Service.Generation.Actions.{JobAction, act, act_all}
use mite.Service.Generation.History.{IsSound, Grows, Allowed, act-Allowed, act_all-IsSound}
use mite.Service.Generation.Ends.{Ends, IsSessionFiled, finish_success-Ends}
use mite.Service.Generation.Failure.{Fails, finish_failure-Fails}
use mite.Service.Generation.Settles.{up}
use mite.Tests.Sample.{waiting, active_session}
use mite.Tests.Calls.{machinery}
use mite.Tests.Requests.{screenshot}

abbrev job : GuideGenerationJob
job = record {
  id = ascii "j";
  batch_id = ascii "b";
  status = GuideGenerationJobStatus.queued;
  attempt = 0;
  guide_draft_id = none;
  error_code = none;
  created_at = 100;
  started_at = none;
  finished_at = none;
  updated_at = 100;
  revision = 1;
}

abbrev running : GuideGenerationJob
running = record job {
  status = GuideGenerationJobStatus.running;
  attempt = 1;
  started_at = some 200;
  updated_at = 200;
  revision = 2;
}

abbrev generating : SupportSession
generating = record active_session {
  status = SupportSessionStatus.generating_guide;
  guide_generation_job_id = some (ascii "j");
}

abbrev table_of : GuideGenerationJob → Db
table_of j = record waiting {
  sessions = write (λ id. none) (ascii "s") (some generating);
  jobs = write (λ id. none) (ascii "j") (some j);
  job_ids = ascii "j" ∷ [];
  batches = write (λ id. none) (ascii "b") (some (ascii "s"));
}

abbrev fresh : Str → ℕ → DomainId
fresh prefix k = prefix ++ (48 + k) ∷ []

abbrev before : Str → Str → Bool
before a b = ltb (length a) (length b)

abbrev guide : GeneratedGuide
guide = record {
  title = ascii "tv";
  steps = record { source_artifact_id = ascii "i"; instruction = ascii "press" } ∷ [];
}

abbrev context : GenerationContext
context = bare_context running generating

-- A worker claims the job and stops; the next one puts it back and claims it again, and only then
-- the first one comes with its guide.
abbrev day : List JobAction
day =
    JobAction.claims up 200 201 fresh before
    ∷ JobAction.restarts up 300 301 fresh
    ∷ JobAction.claims up 400 401 fresh before
    ∷ JobAction.succeeds up 500 501 fresh running context (guide ∷ [])
    ∷ JobAction.fails up 600 601 fresh (record running { revision = 4 }) context false
        (failure_of GuideGenerationErrorCode.ai_refusal)
    ∷ []

-- The late guide is dropped, and the job fails at its second attempt.
second_fails :
    (act_all day (table_of job)).jobs (ascii "j")
    ≡ some (record job {
      status = GuideGenerationJobStatus.failed;
      attempt = 2;
      error_code = some GuideGenerationErrorCode.ai_refusal;
      started_at = some 400;
      finished_at = some 600;
      updated_at = 600;
      revision = 5;
    })
unfolding machinery act_all act recovered_job recovered_rows session_of_job finish_success
    finish_failure generation_error_code error_code_valid next_queued
second_fails = refl

table_of-IsSound :
    (j : GuideGenerationJob) → j.id ≡ ascii "j" → row_fits j ≡ true → IsSound (table_of j)
table_of-IsSound j same fits id row h = elim (write-cases (λ id. none) (ascii "j") id j row h) [
  | inl (here, e) ↦
      (ap (λ (x : GuideGenerationJob). x.id) e ∙ same ∙ sym here, ap row_fits e ∙ fits)
  | inr (apart, none_there) ↦ cc
]

queued-IsSound : IsSound (table_of job)
unfolding row_fits
queued-IsSound = table_of-IsSound job refl refl

running-IsSound : IsSound (table_of running)
unfolding row_fits
running-IsSound = table_of-IsSound running refl refl

running-IsFiled : IsFiled (table_of running).jobs
running-IsFiled id row h = (running-IsSound id row h).0

sessions-IsSessionFiled : IsSessionFiled (table_of running)
sessions-IsSessionFiled id s h = elim (write-cases (λ id. none) (ascii "s") id generating s h) [
  | inl (here, e) ↦ ap (λ (x : SupportSession). x.id) e ∙ sym here
  | inr (apart, none_there) ↦ cc
]

act_all-IsSound_example :
    IsSound (act_all day (table_of job)) × Grows (table_of job) (act_all day (table_of job))
act_all-IsSound_example = act_all-IsSound day (table_of job) queued-IsSound

running_row : (table_of running).jobs (ascii "j") ≡ some running
running_row = write_self (λ id. none) (ascii "j") (some running)

act-Allowed_example :
    (job' : GuideGenerationJob) × ((act
          (JobAction.restarts up 300 301 fresh)
          (table_of running)).jobs
        (ascii "j")
      ≡ some job')
    × Allowed running job'
act-Allowed_example =
    act-Allowed (JobAction.restarts up 300 301 fresh) (table_of running) (ascii "j") running
      running-IsSound running_row

finish_success-Ends_example :
    Ends up 500 501 fresh running context
      (guide ∷ guide ∷ [])
      (table_of running)
      (finish_success up 500 501 fresh running context (guide ∷ guide ∷ []) (table_of running))
finish_success-Ends_example =
    finish_success-Ends up 500 501 fresh running context (guide ∷ guide ∷ []) (table_of running)
      running-IsFiled sessions-IsSessionFiled

abbrev too_late : AttemptError
too_late = record { deadline = true; code = none }

finish_failure-Fails_example :
    (error_code_valid (generation_error_code false too_late) ≡ true)
    × Fails up 500 501 fresh running context
        (generation_error_code false too_late)
        (table_of running)
        (finish_failure up 500 501 fresh running context
          (generation_error_code false too_late)
          (table_of running))
finish_failure-Fails_example =
    finish_failure-Fails up 500 501 fresh running context false too_late (table_of running)
      running-IsFiled

-- The images cannot be loaded.
abbrev load : GenerationContext → Result AttemptError (List DomainId)
load c = err (failure_of GuideGenerationErrorCode.ai_input_unavailable)

abbrev generate : List DomainId → Result AttemptError (List GeneratedGuide)
generate input = ok (guide ∷ [])

-- The ids of the images are the input itself.
abbrev ids_of : List DomainId → List DomainId
ids_of ids = ids

abbrev load_screenshot : GenerationContext → Result AttemptError (List DomainId)
load_screenshot c = ok (ascii "i" ∷ [])

abbrev illustrated : Db
illustrated = record (table_of job) { artifacts = λ id. some screenshot }

-- With images, `RunOnce` brings the job to its end.
once_succeeds :
    (run_once load_screenshot ids_of generate false up up up 200 300 301 fresh fresh before
        illustrated).1.jobs
      (ascii "j")
    ≡ some (record running {
      status = GuideGenerationJobStatus.succeeded;
      guide_draft_id = some (ascii "draft_0");
      finished_at = some 300;
      updated_at = 300;
      revision = 3;
    })
unfolding machinery run_once claim_work validate_generated_guides next_queued session_of_job
    finish_success context_of_job validate_generated_guide validate_draft_content validate_text
    number_steps validate_steps contains
once_succeeds = refl

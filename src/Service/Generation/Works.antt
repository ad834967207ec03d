-- ===== src/Service/Generation/Works.antt =====
-- The works of the transactions of server/internal/service/guide_worker.go.
use mite.Prelude.{
  ℕ, ◌+◌, ◌≡◌, refl, inl, inr, Bool, true, false, ◌||◌, not, Bool-cases, if◌then◌else◌, ◌!=◌,
  eq_nat, List, [], ◌∷◌,
}
use mite.Text.{Str, eq_str}
use mite.Domain.Enums.{
  eq_guide_generation_job_status, SupportSessionStatus, eq_support_session_status,
}
use mite.Domain.Value.{DomainId}
use mite.Domain.Event.{Event}
use mite.Domain.Guide.{
  GuideGenerationJob, GuideGenerationErrorCode, error_code_valid, GuideDraft, GeneratedGuide,
}
use mite.Domain.Support.{Time, SupportSession}
use mite.Repository.{Db, Tx, Query, pure, ◌>>=◌}
use mite.Repository.Generation.{
  GenerationContext, claim_job, recover_jobs, get_job, get_session_by_job, get_guide_session,
  fail_job, succeed_job, create_draft, review_draft,
}
use mite.Service.Session.Common.{session_pair}
use mite.Service.Generation.{
  is_claimed, recovered_events, claim_work, fail_work, succeed_work, create_drafts, review_drafts,
  review_events, job_event, drawn_id, new_draft,
}
use mite.Service.Generation.Evolves.{
  IsFiled, Evolves, IsQuiet, IsEvolving, bind-IsQuiet, before-IsEvolving, then-IsEvolving,
}
use mite.Service.Generation.Statements.{
  get_session_by_job-IsQuiet, get_guide_session-IsQuiet, get_job-IsQuiet, create_draft-IsQuiet,
  review_draft-IsQuiet, fail_job-IsEvolving, succeed_job-IsEvolving, recover_jobs-IsEvolving,
  claim_job-Evolves,
}

-- A test before a change, and a read before it.
if_not-IsEvolving {ℓ} :
    {A : Type ℓ} (b : Bool) (a : A) (m : Tx A)
    → IsEvolving m
    → IsEvolving (if not b then pure a else m)
if_not-IsEvolving true a m h d id = h d id
if_not-IsEvolving false a m h d id = inl refl

module _ (refuses : Query → Bool) (now later : Time) (fresh : Str → ℕ → DomainId) where
  recovered_events-IsQuiet :
      (k : ℕ) (jobs : List GuideGenerationJob)
      → IsQuiet (recovered_events refuses now later fresh k jobs)
  unfolding recovered_events
  recovered_events-IsQuiet k [] d = refl
  recovered_events-IsQuiet k (job ∷ jobs) d =
      bind-IsQuiet (get_session_by_job refuses job.id)
        (λ session. recovered_events refuses now later fresh (k + 1) jobs >>= λ events. pure (
          job_event (drawn_id refuses now later fresh k) later job (session_pair session) ∷ events))
        (get_session_by_job-IsQuiet refuses job.id)
        (λ session.
          bind-IsQuiet (recovered_events refuses now later fresh (k + 1) jobs) _
            (recovered_events-IsQuiet (k + 1) jobs) λ events d. refl)
        d

  pub recover_work-Evolves :
      IsEvolving (recover_jobs refuses now >>= recovered_events refuses now later fresh 0)
  recover_work-Evolves d =
      then-IsEvolving (recover_jobs refuses now) _ d (recover_jobs-IsEvolving refuses now d)
        (recovered_events-IsQuiet 0)

  pub claim_work-Evolves :
      (before : Str → Str → Bool) (d : Db)
      → IsFiled d.jobs
      → Evolves d.jobs (claim_work refuses now later fresh before d).1.jobs
  unfolding claim_work
  claim_work-Evolves before d filed =
      then-IsEvolving (claim_job refuses before now) _ d
        (claim_job-Evolves refuses before now d filed)
        λ job.
          bind-IsQuiet (get_session_by_job refuses job.id) _
            (get_session_by_job-IsQuiet refuses job.id) λ session d. refl

  module _ (claimed : GuideGenerationJob) (context : GenerationContext) where
    held-IsEvolving :
        (k : SupportSession → GuideGenerationJob → Tx (List Event))
        → ((session : SupportSession) (job : GuideGenerationJob) → IsEvolving (k session job))
        → IsEvolving (
            get_guide_session refuses context.support_session_id true >>= λ session.
            get_job refuses claimed.id true >>= λ job. k session job)
    held-IsEvolving k h =
        before-IsEvolving (get_guide_session refuses context.support_session_id true) _
          (get_guide_session-IsQuiet refuses context.support_session_id true)
          λ session.
            before-IsEvolving (get_job refuses claimed.id true) (k session)
              (get_job-IsQuiet refuses claimed.id true) (h session)

    pub fail_work-IsEvolving :
        (code : GuideGenerationErrorCode)
        → error_code_valid code ≡ true
        → IsEvolving (fail_work refuses now later fresh claimed context code)
    unfolding fail_work
    fail_work-IsEvolving code valid = held-IsEvolving _ λ session job.
        if_not-IsEvolving (is_claimed refuses now later fresh claimed context job) [] _ λ d.
          then-IsEvolving (fail_job refuses job.id claimed.revision code now) _ d
            (fail_job-IsEvolving refuses job.id claimed.revision code now valid d) λ failed d. refl

    create_drafts-IsQuiet :
        (session_id : DomainId) (index : ℕ) (outputs : List GeneratedGuide)
        → IsQuiet (create_drafts refuses now later fresh claimed context session_id index outputs)
    unfolding create_drafts
    create_drafts-IsQuiet session_id index [] d = refl
    create_drafts-IsQuiet session_id index (output ∷ outputs) d =
        bind-IsQuiet
          (create_draft refuses
            (new_draft refuses now later fresh claimed context session_id index output))
          (λ draft.
            create_drafts refuses now later fresh claimed context session_id (index + 1) outputs
            >>= λ drafts. pure (draft ∷ drafts))
          (create_draft-IsQuiet refuses
            (new_draft refuses now later fresh claimed context session_id index output))
          (λ draft.
            bind-IsQuiet
              (create_drafts refuses now later fresh claimed context session_id (index + 1) outputs)
              _ (create_drafts-IsQuiet session_id (index + 1) outputs) λ drafts d. refl)
          d

    review_drafts-IsEvolving :
        (session : SupportSession) (job : GuideGenerationJob) (drafts : List GuideDraft)
        → IsEvolving (review_drafts refuses now later fresh claimed context session job drafts)
    review_drafts-IsEvolving session job [] d id = inl refl
    review_drafts-IsEvolving session job (draft ∷ drafts) d id =
        then-IsEvolving (succeed_job refuses job.id claimed.revision draft.id now)
          (λ succeeded. review_draft refuses session.id draft.id now >>= λ reviewed. pure (
            review_events refuses now later fresh claimed context succeeded reviewed
              (draft ∷ drafts)))
          d (succeed_job-IsEvolving refuses job.id claimed.revision draft.id now d)
          (λ succeeded.
            bind-IsQuiet (review_draft refuses session.id draft.id now) _
              (review_draft-IsQuiet refuses session.id draft.id now) λ reviewed d. refl)
          id

    pub succeed_work-IsEvolving :
        (outputs : List GeneratedGuide)
        → IsEvolving (succeed_work refuses now later fresh claimed context outputs)
    unfolding succeed_work
    succeed_work-IsEvolving outputs = held-IsEvolving _ λ session job.
        elim (Bool-cases (
          not (is_claimed refuses now later fresh claimed context job)
          || session.status != SupportSessionStatus.generating_guide)) [
            | inl b ↦ rw b λ d id. inl refl
            | inr b ↦ rw b (
                before-IsEvolving
                  (create_drafts refuses now later fresh claimed context session.id 0 outputs)
                  (review_drafts refuses now later fresh claimed context session job)
                  (create_drafts-IsQuiet session.id 0 outputs)
                  (review_drafts-IsEvolving session job))
          ]

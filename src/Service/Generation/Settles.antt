-- ===== src/Service/Generation/Settles.antt =====
-- With nothing refused, the end of an attempt in server/internal/service/guide_worker.go is stored.
use mathlib.Core.Path.{subst}
use mite.Prelude.{
  ℕ, ◌+◌, ◌≡◌, refl, ◌∙◌, ap, ◌⊎◌, inl, inr, Bool, true, false, Option, some, write_self, ok, List,
  [], ◌∷◌, ◌==◌, ==_refl, eq_nat,
}
use mite.Text.{Str, eq_str}
use mite.Domain.Enums.{
  GuideGenerationJobStatus, eq_guide_generation_job_status, SupportSessionStatus,
  eq_support_session_status,
}
use mite.Domain.Value.{DomainId}
use mite.Domain.Guide.{
  GuideGenerationJob, GuideGenerationErrorCode, error_code_valid, GuideDraft, GeneratedGuide,
}
use mite.Domain.Support.{Time, SupportSession}
use mite.Repository.{Db, Query, transact, settle}
use mite.Repository.Generation.{
  GenerationContext, failed_job, succeeded_job, update_job, get_guide_session, get_job, fail_job,
  succeed_job, review_draft, review_row, create_draft, add_draft,
}
use mite.Service.Env.{Outcome}
use mite.Service.Generation.{
  fail_work, finish_failure, succeed_work, finish_success, create_drafts, review_drafts, announced,
}
use mite.Service.Generation.Drafts.{stored_draft, Added, create_drafts-Added}

-- A statement that is not refused.
abbrev pub up : Query → Bool
up query = false

-- The job has drafts, or a code that tells why it has none.
abbrev pub IsSettled : GuideGenerationJob → Type 0
IsSettled job =
    (job.status ≡ GuideGenerationJobStatus.succeeded)
    ⊎ ((code : GuideGenerationErrorCode) × (job.status ≡ GuideGenerationJobStatus.failed)
        × (job.error_code ≡ some code)
        × (error_code_valid code ≡ true))

abbrev pub Settles : DomainId → Outcome (Unit {0}) → Type 0
Settles id (r, db, events) =
    (r ≡ ok tt) × ((job : GuideGenerationJob) × (db.jobs id ≡ some job) × IsSettled job)

module _ (now later : Time) (rest : Str → ℕ → DomainId) (claimed : GuideGenerationJob)
    (context : GenerationContext) (session : SupportSession) (db : Db)
    (running : claimed.status ≡ GuideGenerationJobStatus.running)
    (job_row : db.jobs claimed.id ≡ some claimed)
    (session_row : db.sessions context.support_session_id ≡ some session) where
  still : (claimed.status == GuideGenerationJobStatus.running) ≡ true
  still = ap (λ (s : GuideGenerationJobStatus). s == GuideGenerationJobStatus.running) running

  same : (claimed.revision == claimed.revision) ≡ true
  same = ==_refl claimed.revision

  pub finish_failure-Settles :
      (code : GuideGenerationErrorCode)
      → error_code_valid code ≡ true
      → Settles claimed.id (finish_failure up now later rest claimed context code db)
  unfolding finish_failure fail_work get_guide_session get_job fail_job transact
  finish_failure-Settles code valid =
      rw (session_row, job_row, still, same, job_row, still, same, update_job)
        (
          refl,
          (
            failed_job code now claimed,
            write_self db.jobs claimed.id (some (failed_job code now claimed)),
            inr (code, refl, refl, valid),
          ),
        )

  create_drafts-runs :
      (index : ℕ) (outputs : List GeneratedGuide) (d : Db)
      → (drafts : List GuideDraft) × (d' : Db) × (create_drafts up now later rest claimed context
            session.id index outputs d
          ≡ (ok drafts, d'))
  unfolding create_drafts create_draft
  create_drafts-runs index [] d = ([], d, refl)
  create_drafts-runs index (output ∷ outputs) d =
      let row = stored_draft up now later rest claimed context session.id index output in
      let (drafts, d', e) = create_drafts-runs (index + 1) outputs (add_draft row d) in
      (row ∷ drafts, d', rw e refl)

  module _ (same_session : session.id ≡ context.support_session_id)
      (waits : session.status ≡ SupportSessionStatus.generating_guide) where
    waiting : (session.status == SupportSessionStatus.generating_guide) ≡ true
    waiting = ap (λ (s : SupportSessionStatus). s == SupportSessionStatus.generating_guide) waits

    review_drafts-Settles :
        (output : GeneratedGuide) (outputs : List GeneratedGuide) (drafts : List GuideDraft)
        (d : Db)
        → Added up now later rest claimed context session.id 1 (output ∷ outputs) db (ok drafts, d)
        → Settles claimed.id (
            announced (
              settle false db
                (review_drafts up now later rest claimed context session claimed drafts d)))
    unfolding succeed_job review_draft
    review_drafts-Settles output outputs [] d (_, jobs, sessions, added, are) = absurd are
    review_drafts-Settles output outputs (draft ∷ drafts) d (_, jobs, sessions, added, are) =
        let job_there =
          ap (λ (t : DomainId → Option GuideGenerationJob). t claimed.id) jobs ∙ job_row in
        let session_there =
          ap (λ (t : DomainId → Option SupportSession). t session.id) sessions
          ∙ ap db.sessions same_session
          ∙ session_row in
        rw (job_there, still, same, update_job, session_there, waiting, review_row)
          (
            refl,
            (
              succeeded_job draft.id now claimed,
              write_self d.jobs claimed.id (some (succeeded_job draft.id now claimed)),
              inl refl,
            ),
          )

    pub finish_success-Settles :
        (output : GeneratedGuide) (outputs : List GeneratedGuide)
        → Settles claimed.id
            (finish_success up now later rest claimed context (output ∷ outputs) db)
    unfolding finish_success succeed_work get_guide_session get_job transact
    finish_success-Settles output outputs =
        let (drafts, d, e) = create_drafts-runs 0 (output ∷ outputs) db in
        let added =
          subst (Added up now later rest claimed context session.id 1 (output ∷ outputs) db) e (
            create_drafts-Added up now later rest claimed context session.id 0 (output ∷ outputs)
              db) in
        rw (session_row, job_row, still, same, waiting, e)
          (review_drafts-Settles output outputs drafts d added)

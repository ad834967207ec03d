-- ===== src/Service/Generation/Statements.antt =====
-- Each transaction of server/internal/service/guide_worker.go, and `RetryGuideGenerationJob`, changes jobs
-- by one statement.
use mathlib.Core.Path.{subst}
use mite.Prelude.{
  ℕ, ◌≡◌, refl, ◌∙◌, ap, ◌⊎◌, inl, inr, Bool, true, false, ◌&&◌, Option, none, some, Bool-cases,
  ◌==◌, eq_of_==, eq_nat, List, [], ◌∷◌, &&-eq-true,
}
use mite.Text.{Str, eq_str}
use mite.Domain.Enums.{
  GuideGenerationJobStatus, eq_guide_generation_job_status, SupportSessionStatus,
  eq_support_session_status,
}
use mite.Domain.Value.{DomainId}
use mite.Domain.Guide.{GuideGenerationJob, GuideGenerationErrorCode, error_code_valid, GuideDraft}
use mite.Domain.Support.{Time, SupportSession}
use mite.Repository.{Db, Query}
use mite.Repository.Runs.{one}
use mite.Repository.Generation.{
  is_queued, is_running_job, claimed_job, failed_job, succeeded_job, claimed_at, next_queued,
  oldest, older, claim_candidate, recovered_row, claim_job, recover_jobs, get_job,
  get_session_by_job, get_guide_session, fail_job, succeed_job, create_draft, review_draft,
  review_row,
}
use mite.Service.Generation.Rows.{Change}
use mite.Service.Generation.Evolves.{
  Jobs, IsFiled, RowStep, Evolves, IsQuiet, IsEvolving, guarded-IsQuiet, guarded-Evolves,
  one-IsQuiet, update_job-Evolves, still_running,
}

module _ (refuses : Query → Bool) where
  pub get_session_by_job-IsQuiet : (id : DomainId) → IsQuiet (get_session_by_job refuses id)
  unfolding get_session_by_job
  get_session_by_job-IsQuiet id d =
      guarded-IsQuiet (refuses Query.session_by_job) (one _) (one-IsQuiet _) d

  pub get_guide_session-IsQuiet :
      (id : DomainId) (lock : Bool) → IsQuiet (get_guide_session refuses id lock)
  unfolding get_guide_session
  get_guide_session-IsQuiet id true d =
      guarded-IsQuiet (refuses Query.lock_guide_session) (one _) (one-IsQuiet _) d
  get_guide_session-IsQuiet id false d =
      guarded-IsQuiet (refuses Query.guide_session) (one _) (one-IsQuiet _) d

  pub get_job-IsQuiet : (id : DomainId) (lock : Bool) → IsQuiet (get_job refuses id lock)
  unfolding get_job
  get_job-IsQuiet id true d = guarded-IsQuiet (refuses Query.lock_job) (one _) (one-IsQuiet _) d
  get_job-IsQuiet id false d = guarded-IsQuiet (refuses Query.get_job) (one _) (one-IsQuiet _) d

  pub create_draft-IsQuiet : (value : GuideDraft) → IsQuiet (create_draft refuses value)
  unfolding create_draft
  create_draft-IsQuiet value d = guarded-IsQuiet (refuses Query.create_draft) _ (λ d. refl) d

  pub review_draft-IsQuiet :
      (id draft_id : DomainId) (now : Time) → IsQuiet (review_draft refuses id draft_id now)
  unfolding review_draft
  review_draft-IsQuiet id draft_id now d =
      guarded-IsQuiet (refuses Query.review_draft) (review_row id draft_id now (d.sessions id))
        (row (d.sessions id)) d
    where
      row : (o : Option SupportSession) → IsQuiet (review_row id draft_id now o)
      row none d = refl
      row (some s) d = elim (Bool-cases (s.status == SupportSessionStatus.generating_guide)) [
        | inl b ↦ rw (b, review_row) refl
        | inr b ↦ rw (b, review_row) refl
      ]

  pub fail_job-IsEvolving :
      (id : DomainId) (expected : ℕ) (code : GuideGenerationErrorCode) (now : Time)
      → error_code_valid code ≡ true
      → IsEvolving (fail_job refuses id expected code now)
  unfolding fail_job
  fail_job-IsEvolving id expected code now valid d = guarded-Evolves (refuses Query.fail_job) _ d (
      update_job-Evolves (claimed_at expected) (failed_job code now) id d
        λ job n q. Change.fails code now job valid (still_running expected job q))

  pub succeed_job-IsEvolving :
      (id : DomainId) (expected : ℕ) (draft_id : DomainId) (now : Time)
      → IsEvolving (succeed_job refuses id expected draft_id now)
  unfolding succeed_job
  succeed_job-IsEvolving id expected draft_id now d =
      guarded-Evolves (refuses Query.succeed_job) _ d (
        update_job-Evolves (claimed_at expected) (succeeded_job draft_id now) id d
          λ job n q. Change.succeeds draft_id now job (still_running expected job q))

  pub recover_jobs-IsEvolving : (now : Time) → IsEvolving (recover_jobs refuses now)
  unfolding recover_jobs
  recover_jobs-IsEvolving now d =
      guarded-Evolves (refuses Query.recover_jobs) _ d λ id. recovered (d.jobs id)
    where
      recovered : (o : Option GuideGenerationJob) → RowStep o (recovered_row now o)
      recovered none = inl refl
      recovered (some job) = elim (Bool-cases (is_running_job job)) [
        | inr q ↦ rw q (inl refl)
        | inl q ↦ rw q (
            inr (
              job,
              _,
              refl,
              refl,
              Change.recovers now job (eq_of_== job.status GuideGenerationJobStatus.running q),
            ))
      ]

-- A row of the table, which waits.
abbrev pub Waits : Jobs → GuideGenerationJob → Type 0
Waits t job = (id : DomainId) × (t id ≡ some job) × (job.status ≡ GuideGenerationJobStatus.queued)

oldest-cases :
    (before : Str → Str → Bool) (o rest : Option GuideGenerationJob) (job : GuideGenerationJob)
    → oldest before o rest ≡ some job
    → (rest ≡ some job) ⊎ ((o ≡ some job) × (is_queued job ≡ true))
oldest-cases before none rest job h = inl h
oldest-cases before (some c) none job h = elim (Bool-cases (is_queued c)) [
  | inl q ↦
      let k : some c ≡ some job = rw q at h in
      inr (k, let s : c ≡ job = cc in subst (λ j. is_queued j ≡ true) s q)
  | inr q ↦ let k : none ≡ some job = rw q at h in cc
]
oldest-cases before (some c) (some other) job h =
    elim (Bool-cases (is_queued c && older before c other)) [
      | inl q ↦
          let k : some c ≡ some job = rw q at h in
          let s : c ≡ job = cc in
          inr (
            k,
            subst (λ j. is_queued j ≡ true) s (&&-eq-true (is_queued c) (older before c other) q).0,
          )
      | inr q ↦ let k : some other ≡ some job = rw q at h in inl k
    ]

-- The job that is claimed waits.
pub next_queued-Waits :
    (before : Str → Str → Bool) (t : Jobs) (ids : List DomainId) (job : GuideGenerationJob)
    → next_queued before t ids ≡ some job
    → Waits t job
unfolding next_queued
next_queued-Waits before t [] job h = cc
next_queued-Waits before t (id ∷ ids) job h =
    elim (oldest-cases before (t id) (next_queued before t ids) job h) [
      | inl e ↦ next_queued-Waits before t ids job e
      | inr (n, q) ↦ (id, n, eq_of_== job.status GuideGenerationJobStatus.queued q)
    ]

pub claim_job-Evolves :
    (refuses : Query → Bool) (before : Str → Str → Bool) (now : Time) (d : Db)
    → IsFiled d.jobs
    → Evolves d.jobs (claim_job refuses before now d).1.jobs
unfolding claim_job
claim_job-Evolves refuses before now d filed =
    guarded-Evolves (refuses Query.claim_job) _ d
      (candidate (next_queued before d.jobs d.job_ids) (next_queued-Waits before d.jobs d.job_ids))
  where
    candidate :
        (o : Option GuideGenerationJob)
        → ((job : GuideGenerationJob) → o ≡ some job → Waits d.jobs job)
        → Evolves d.jobs (claim_candidate now o d).1.jobs
    candidate none waits id = inl refl
    candidate (some c) waits id =
        let (own, n, q) = waits c refl in
        update_job-Evolves (λ job. true) (claimed_job now) c.id d
          (λ job m _.
            let here = ap d.jobs (filed own c n) ∙ n in
            let s : c ≡ job = cc in
            Change.claims now job (subst (λ j. j.status ≡ GuideGenerationJobStatus.queued) s q))
          id

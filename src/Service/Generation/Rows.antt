-- ===== src/Service/Generation/Rows.antt =====
-- What the statements of db/queries/guides.sql make of the rows of `guide_generation_jobs`, against the
-- constraints of supabase/migrations and the transitions of server/internal/domain/status.go.
use mite.Prelude.{
  &&-eq-true, ℕ, ◌+◌, ◌≤◌, ◌<◌, ◌≡◌, refl, ◌⊎◌, inl, inr, arith, Bool, true, false, ◌&&◌, not,
  Option, none, some, leb, eq_nat, is_nil,
}
use mite.Text.{eq_str}
use mite.Domain.Enums.{GuideGenerationJobStatus, eq_guide_generation_job_status}
use mite.Domain.Status.{job_can_transition, job_can_recover}
use mite.Domain.Value.{DomainId}
use mite.Domain.Guide.{GuideGenerationJob, GuideGenerationErrorCode, error_code_valid}
use mite.Domain.Support.{Time}
use mite.Repository.Generation.{claimed_job, retried_job, failed_job, succeeded_job, recovered_job}

-- The last `CHECK` of the table; the flags tell which columns are null.
unfoldable pub columns_fit :
    GuideGenerationJobStatus → ℕ → (started finished code draft : Bool) → Bool
columns_fit GuideGenerationJobStatus.queued attempt started finished code draft =
    leb attempt 2 && started && finished && code && draft
columns_fit GuideGenerationJobStatus.running attempt started finished code draft =
    leb 1 attempt && leb attempt 3 && not started && finished && code && draft
columns_fit GuideGenerationJobStatus.succeeded attempt started finished code draft =
    leb 1 attempt && leb attempt 3 && not started && not finished && code && not draft
columns_fit GuideGenerationJobStatus.failed attempt started finished code draft =
    leb 1 attempt && leb attempt 3 && not started && not finished && not code && draft
columns_fit (GuideGenerationJobStatus.other s) attempt started finished code draft = false

-- `error_code IN (…)`.
abbrev pub code_fits : Option GuideGenerationErrorCode → Bool
code_fits none = true
code_fits (some code) = error_code_valid code

unfoldable pub row_fits : GuideGenerationJob → Bool
unfolding columns_fit error_code_valid
row_fits job =
    code_fits job.error_code
    && columns_fit job.status job.attempt (is_nil job.started_at) (is_nil job.finished_at)
        (is_nil job.error_code) (is_nil job.guide_draft_id)

columns_fit-attempt :
    (status : GuideGenerationJobStatus) (attempt : ℕ) (started finished code draft : Bool)
    → columns_fit status attempt started finished code draft ≡ true
    → attempt ≤ 3
unfolding columns_fit
columns_fit-attempt GuideGenerationJobStatus.queued a b c d e h = ground (arith, h)
columns_fit-attempt GuideGenerationJobStatus.running a b c d e h = ground (arith, h)
columns_fit-attempt GuideGenerationJobStatus.succeeded a b c d e h = ground (arith, h)
columns_fit-attempt GuideGenerationJobStatus.failed a b c d e h = ground (arith, h)
columns_fit-attempt (GuideGenerationJobStatus.other s) a b c d e h = ground (arith, h)

pub row_fits-attempt : (job : GuideGenerationJob) → row_fits job ≡ true → job.attempt ≤ 3
unfolding row_fits
row_fits-attempt job h =
    columns_fit-attempt job.status job.attempt (is_nil job.started_at) (is_nil job.finished_at)
      (is_nil job.error_code) (is_nil job.guide_draft_id)
      (&&-eq-true (code_fits job.error_code) _ h).1

-- What a statement makes of a row.
pub data Change : GuideGenerationJob → GuideGenerationJob → Type 0 where
  claims :
      (now : Time) (job : GuideGenerationJob)
      → job.status ≡ GuideGenerationJobStatus.queued
      → Change job (claimed_job now job)
  fails :
      (code : GuideGenerationErrorCode) (now : Time) (job : GuideGenerationJob)
      → error_code_valid code ≡ true
      → job.status ≡ GuideGenerationJobStatus.running
      → Change job (failed_job code now job)
  succeeds :
      (draft : DomainId) (now : Time) (job : GuideGenerationJob)
      → job.status ≡ GuideGenerationJobStatus.running
      → Change job (succeeded_job draft now job)
  retries :
      (now : Time) (job : GuideGenerationJob)
      → job.status ≡ GuideGenerationJobStatus.failed
      → job.attempt < 3
      → Change job (retried_job now job)
  recovers :
      (now : Time) (job : GuideGenerationJob)
      → job.status ≡ GuideGenerationJobStatus.running
      → Change job (recovered_job now job)

-- A row whose columns fit its status has such columns after a change.
pub Change-fits :
    (job job' : GuideGenerationJob) → Change job job' → row_fits job ≡ true → row_fits job' ≡ true
unfolding row_fits columns_fit recovered_job error_code_valid
Change-fits job _ (Change.claims now _ s) h = let k = rw s at h in ground (arith, k)
Change-fits job _ (Change.fails code now _ v s) h = let k = rw s at h in ground (arith, k, v)
Change-fits job _ (Change.succeeds draft now _ s) h = let k = rw s at h in ground (arith, k)
Change-fits job _ (Change.retries now _ s low) h = let k = rw s at h in ground (arith, k, low)
Change-fits job _ (Change.recovers now _ s) h = let k = rw s at h in ground (arith, k)

-- A change of status is one that the domain allows, for a transition or for a recovery.
pub Change-allowed :
    (job job' : GuideGenerationJob)
    → Change job job'
    → row_fits job ≡ true
    → (job'.id ≡ job.id)
      × (job'.revision ≡ job.revision + 1)
      × (job.attempt ≤ job'.attempt)
      × ((job_can_transition job.status job'.status job.attempt ≡ true)
          ⊎ ((job.status ≡ GuideGenerationJobStatus.running)
              × (job_can_recover job.attempt job'.status ≡ true)))
unfolding row_fits columns_fit recovered_job job_can_transition job_can_recover
Change-allowed job _ (Change.claims now _ s) h =
    let k = rw s at h in (refl, refl, omega arith, inl (rw s (ground (arith, k))))
Change-allowed job _ (Change.fails code now _ v s) h =
    let k = rw s at h in (refl, refl, omega arith, inl (rw s (ground (arith, k))))
Change-allowed job _ (Change.succeeds draft now _ s) h =
    let k = rw s at h in (refl, refl, omega arith, inl (rw s (ground (arith, k))))
Change-allowed job _ (Change.retries now _ s low) h =
    let k = rw s at h in (refl, refl, omega arith, inl (rw s (ground (arith, k, low))))
Change-allowed job _ (Change.recovers now _ s) h =
    let k = rw s at h in (refl, refl, omega arith, inr (s, ground (arith, k)))

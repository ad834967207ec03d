-- ===== src/Service/Generation/Failure.antt =====
-- How `finishFailure` of server/internal/service/guide_worker.go ends.
use mite.Prelude.{
  ◌≡◌, refl, ◌∙◌, sym, ap, ◌⊎◌, inl, inr, Bool, true, false, some, Bool-cases, Option-cases, write,
  write_self, ok, err, List, [], ◌∷◌, ℕ, ◌+◌, none,
}
use mite.Text.{Str, ascii, eq_str}
use mite.Domain.Errors.{Res}
use mite.Domain.Enums.{GuideGenerationJobStatus, eq_guide_generation_job_status}
use mite.Domain.Value.{DomainId}
use mite.Domain.Event.{Event}
use mite.Domain.Guide.{GuideGenerationJob, GuideGenerationErrorCode, error_code_valid}
use mite.Domain.Support.{Time, SupportSession}
use mite.Repository.{Db, Query, settle, transact}
use mite.Repository.Generation.{
  GenerationContext, failed_job, get_job, get_guide_session, fail_job, update_job, put_job,
}
use mite.Service.Env.{Outcome}
use mite.Service.Session.Common.{session_pair}
use mite.Service.Generation.{
  AttemptError, announced, is_claimed, job_event, drawn_id, generation_error_code, fail_work,
  finish_failure,
}
use mite.Service.Generation.Told.{TellsJob}
use mite.Service.Generation.Evolves.{IsFiled}
use mite.Service.Generation.History.{generation_error_code-valid}

module _ (refuses : Query → Bool) (now later : Time) (fresh : Str → ℕ → DomainId)
    (claimed : GuideGenerationJob) (context : GenerationContext) where
  -- The row of a job that failed with a code.
  abbrev pub IsFailedRow :
      GuideGenerationErrorCode → GuideGenerationJob → GuideGenerationJob → Type 0
  IsFailedRow code job row =
      (row.id ≡ claimed.id)
      × (row.batch_id ≡ job.batch_id)
      × (row.status ≡ GuideGenerationJobStatus.failed)
      × (row.attempt ≡ job.attempt)
      × (row.guide_draft_id ≡ none)
      × (row.error_code ≡ some code)
      × (row.started_at ≡ job.started_at)
      × (row.finished_at ≡ some now)
      × (row.revision ≡ job.revision + 1)

  -- The failed row is stored, nothing else, and one event tells of it.
  abbrev pub IsFailed :
      GuideGenerationErrorCode → GuideGenerationJob → SupportSession → Db → Db → List Event → Type 0
  IsFailed code job session db db' events =
      (row : GuideGenerationJob) × IsFailedRow code job row
      × (db' ≡ record db { jobs = write db.jobs claimed.id (some row) })
      × (db'.jobs claimed.id ≡ some row)
      × ((e : Event) × (events ≡ e ∷ []) × TellsJob (fresh (ascii "evt_") 0) later session row e)

  -- How the end of a failed attempt ends: it fails as a whole, it comes too late, or it is stored.
  abbrev pub Fails : GuideGenerationErrorCode → Db → Outcome (Unit {0}) → Type 0
  Fails code db (err e, db', events) = (db' ≡ db) × (events ≡ [])
  Fails code db (ok _, db', events) =
      (job : GuideGenerationJob) × (session : SupportSession) × (db.jobs claimed.id ≡ some job)
      × (db.sessions context.support_session_id ≡ some session)
      × (((is_claimed refuses now later fresh claimed context job ≡ false)
            × (db' ≡ db)
            × (events ≡ []))
          ⊎ ((is_claimed refuses now later fresh claimed context job ≡ true)
              × IsFailed code job session db db' events))

  abbrev Worked : GuideGenerationErrorCode → Db → Res (List Event) × Db → Type 0
  Worked code db (err e, db') = Unit
  Worked code db (ok events, db') = Fails code db (ok tt, db', events)

  settle-Fails :
      (code : GuideGenerationErrorCode) (refused : Bool) (db : Db) (x : Res (List Event) × Db)
      → Worked code db x
      → Fails code db (announced (settle refused db x))
  settle-Fails code refused db (err e, d) h = (refl, refl)
  settle-Fails code true db (ok events, d) h = (refl, refl)
  settle-Fails code false db (ok events, d) h = h

  failed_job-IsFailed :
      (code : GuideGenerationErrorCode) (db : Db) (job : GuideGenerationJob)
      (session : SupportSession)
      → job.id ≡ claimed.id
      → IsFailed code job session db (put_job job.id (failed_job code now job) db) (
          job_event
            (drawn_id refuses now later fresh 0)
            later
            (failed_job code now job)
            (session_pair session)
          ∷ [])
  failed_job-IsFailed code db job session same =
      let row = failed_job code now job in
      (
        row,
        (same, refl, refl, refl, refl, refl, refl, refl, refl),
        ap (λ id. record db { jobs = write db.jobs id (some row) }) same,
        ap (write db.jobs job.id (some row)) (sym same) ∙ write_self db.jobs job.id (some row),
        (
          job_event (fresh (ascii "evt_") 0) later row (session_pair session),
          refl,
          (refl, refl, refl, refl, refl, refl, refl, refl),
        ),
      )

  fail_work-Worked :
      (code : GuideGenerationErrorCode) (db : Db)
      → IsFiled db.jobs
      → Worked code db (fail_work refuses now later fresh claimed context code db)
  unfolding fail_work get_guide_session get_job fail_job
  fail_work-Worked code db filed = elim (Bool-cases (refuses Query.lock_guide_session)) [
    | inl a ↦ rw a tt
    | inr a ↦ elim (Option-cases (db.sessions context.support_session_id)) [
      | inl n ↦ rw (a, n) tt
      | inr (session, n) ↦ elim (Bool-cases (refuses Query.lock_job)) [
        | inl b ↦ rw (a, n, b) tt
        | inr b ↦ elim (Option-cases (db.jobs claimed.id)) [
          | inl m ↦ rw (a, n, b, m) tt
          | inr (job, m) ↦
              elim (Bool-cases (is_claimed refuses now later fresh claimed context job)) [
                | inr w ↦ rw (a, n, b, m, w) (job, session, m, n, inl (w, refl, refl))
                | inl w ↦ elim (Bool-cases (refuses Query.fail_job)) [
                  | inl c ↦ rw (a, n, b, m, w, c) tt
                  | inr c ↦
                      let here = ap db.jobs (filed claimed.id job m) ∙ m in
                      rw (a, n, b, m, w, c, here, w, update_job)
                        (
                          job,
                          session,
                          m,
                          n,
                          inr (w, failed_job-IsFailed code db job session (filed claimed.id job m)),
                        )
                ]
              ]
        ]
      ]
    ]
  ]

  -- If jobs have their keys, the end of a failed attempt fails with nothing changed or published,
  -- or it finds the job and the session; then nothing is changed or published if the job is not the
  -- running one that was claimed, and otherwise the one change is to the row of that job, which is
  -- now FAILED at the next revision, finished now, without a draft and with the error code of the
  -- attempt, one that the table takes; and one event tells the user and the family of that row.
  pub finish_failure-Fails :
      (expired : Bool) (e : AttemptError) (db : Db)
      → IsFiled db.jobs
      → (error_code_valid (generation_error_code expired e) ≡ true)
        × Fails (generation_error_code expired e) db (
            finish_failure refuses now later fresh claimed context
              (generation_error_code expired e)
              db)
  unfolding finish_failure transact
  finish_failure-Fails expired e db filed =
      let code = generation_error_code expired e in
      (
        generation_error_code-valid expired e,
        settle-Fails code (refuses Query.commit) db
            (fail_work refuses now later fresh claimed context code db)
            (fail_work-Worked code db filed),
      )

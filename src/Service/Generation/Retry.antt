-- ===== src/Service/Generation/Retry.antt =====
-- The work of `RetryGuideGenerationJob` in server/internal/service/guides.go.
use mathlib.Core.Path.{subst}
use mite.Prelude.{
  ℕ, ◌<◌, ◌≡◌, refl, ◌∙◌, sym, ap, inl, inr, arith, Bool, true, not, some, Bool-cases, Option-cases,
  Result-cases, eq_of_==, eq_nat, ok, err, [], ◌∷◌, fail_if,
}
use mite.Text.{eq_str}
use mite.Domain.Errors.{Res, domain, invalid_state}
use mite.Domain.Enums.{
  Role, GuideGenerationJobStatus, eq_guide_generation_job_status, eq_support_session_status,
}
use mite.Domain.Value.{DomainId}
use mite.Domain.User.{Actor, authorize}
use mite.Domain.Guide.{GuideGenerationJob}
use mite.Domain.Support.{Time, SupportSession}
use mite.Repository.{Db, Query, go_on, lift, pure, ◌>>=◌}
use mite.Repository.Generation.{
  retried_job, update_job, get_job, get_session_by_job, get_guide_session, session_of_job,
  retry_job,
}
use mite.Service.Run.{check_revision}
use mite.Service.Session.Common.{session_pair}
use mite.Service.Generation.{job_event}
use mite.Service.Generation.Attempts.{hold_failed, can_retry, retry_held, retry_work}
use mite.Service.Generation.Rows.{Change}
use mite.Service.Generation.Evolves.{
  IsFiled, RowStep, Evolves, then-IsEvolving, guarded-Evolves, update_job-Evolves,
}

-- What a retry holds: the failed job with an attempt left.
abbrev Holds : DomainId → Db → Res (GuideGenerationJob × SupportSession) × Db → Type 0
Holds id db (err e, db') = db' ≡ db
Holds id db (ok (job, session), db') =
    (db' ≡ db)
    × (db.jobs id ≡ some job)
    × (job.status ≡ GuideGenerationJobStatus.failed)
    × (job.attempt < 3)

can_retry-failed :
    (job : GuideGenerationJob) (session : SupportSession)
    → can_retry job session ≡ true
    → (job.status ≡ GuideGenerationJobStatus.failed) × (job.attempt < 3)
can_retry-failed job session h =
    (eq_of_== job.status GuideGenerationJobStatus.failed (ground (arith, h)), ground (arith, h))

module _ (refuses : Query → Bool) where
  hold_failed-Holds :
      (actor : Actor) (id : DomainId) (expected : ℕ) (db : Db)
      → Holds id db (hold_failed refuses actor id expected db)
  unfolding hold_failed get_job get_session_by_job get_guide_session
  hold_failed-Holds actor id expected db = elim (Bool-cases (refuses Query.get_job)) [
    | inl a ↦ rw a refl
    | inr a ↦ elim (Option-cases (db.jobs id)) [
      | inl n ↦ rw (a, n) refl
      | inr (job, n) ↦ elim (Bool-cases (refuses Query.session_by_job)) [
        | inl b ↦ rw (a, n, b) refl
        | inr b ↦ elim (Option-cases (session_of_job db job.id)) [
          | inl s ↦ rw (a, n, b, s) refl
          | inr (old, s) ↦ elim (Bool-cases (refuses Query.lock_guide_session)) [
            | inl c ↦ rw (a, n, b, s, c) refl
            | inr c ↦ elim (Option-cases (db.sessions old.id)) [
              | inl t ↦ rw (a, n, b, s, c, t) refl
              | inr (session, t) ↦ elim (Bool-cases (refuses Query.lock_job)) [
                | inl l ↦ rw (a, n, b, s, c, t, l) refl
                | inr l ↦ rw (a, n, b, s, c, t, l, n) (checked job session n)
              ]
            ]
          ]
        ]
      ]
    ]
  ]
    where
      checked :
          (job : GuideGenerationJob) (session : SupportSession)
          → db.jobs id ≡ some job
          → Holds id db (
              (lift (authorize (session_pair session) actor (Role.family ∷ [])) >>= λ _.
              lift (check_revision job.revision expected) >>= λ _.
              lift (fail_if (not (can_retry job session)) (domain invalid_state)) >>= λ _.
              pure (job, session))
                db)
      checked job session n =
          elim (Result-cases (authorize (session_pair session) actor (Role.family ∷ []))) [
            | inl (e, p) ↦ rw p refl
            | inr (_, p) ↦ elim (Result-cases (check_revision job.revision expected)) [
              | inl (e, q) ↦ rw (p, q) refl
              | inr (_, q) ↦ elim (Bool-cases (can_retry job session)) [
                | inr r ↦ rw (p, q, r) refl
                | inl r ↦ let f = can_retry-failed job session r in rw (p, q, r) (refl, n, f.0, f.1)
              ]
            ]
          ]

  pub retry_work-Evolves :
      (now later : Time) (event_id : DomainId) (actor : Actor) (id : DomainId) (expected : ℕ)
      (db : Db)
      → IsFiled db.jobs
      → Evolves db.jobs (retry_work refuses now later event_id actor id expected db).1.jobs
  unfolding retry_work retry_job
  retry_work-Evolves now later event_id actor id expected db filed =
      retried (hold_failed refuses actor id expected db) (hold_failed-Holds actor id expected db)
    where
      retried :
          (x : Res (GuideGenerationJob × SupportSession) × Db)
          → Holds id db x
          → Evolves db.jobs (go_on x (retry_held refuses now later event_id)).1.jobs
      retried (err e, d) same j = inl (ap (λ (x : Db). x.jobs j) same)
      retried (ok (job, session), d) (same, n, failed, low) j =
          let here = ap db.jobs (filed id job n) ∙ n in
          let change =
            update_job-Evolves (λ job. true) (retried_job now) job.id db
              λ row m _.
                let s : job ≡ row = cc in
                Change.retries now row
                  (subst (λ j. j.status ≡ GuideGenerationJobStatus.failed) s failed)
                  (subst (λ j. j.attempt < 3) s low) in
          subst
            (λ (x : Db).
              RowStep (db.jobs j)
                ((retry_held refuses now later event_id (job, session) x).1.jobs j))
            (sym same)
            (then-IsEvolving (retry_job refuses job.id now)
              (λ row. pure (row, job_event event_id later row (session_pair session) ∷ [])) db
              (guarded-Evolves (refuses Query.retry_job)
                (update_job (λ job. true) (retried_job now) job.id (db.jobs job.id)) db change)
              (λ row d. refl) j)

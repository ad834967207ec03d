-- ===== src/Service/Generation/Ends.antt =====
-- How `finishSuccess` of server/internal/service/guide_worker.go ends.
use mite.Prelude.{
  ℕ, ◌+◌, none, ◌≡◌, refl, ◌∙◌, sym, ap, ◌⊎◌, inl, inr, arith, Bool, true, false, ◌||◌, not, Option,
  some, Bool-cases, Option-cases, write, write_self, ◌==◌, ◌!=◌, eq_nat, ok, err, List, [], ◌∷◌,
  ◌++◌,
}
use mite.Text.{Str, eq_str}
use mite.Domain.Errors.{Res}
use mite.Domain.Enums.{
  GuideGenerationJobStatus, eq_guide_generation_job_status, SupportSessionStatus,
  eq_support_session_status,
}
use mite.Domain.Value.{DomainId}
use mite.Domain.Event.{Event}
use mite.Domain.Guide.{GuideGenerationJob, GuideDraft, GeneratedGuide}
use mite.Domain.Support.{Time, SupportSession}
use mite.Repository.{Db, Query, settle, transact, go_on}
use mite.Repository.Generation.{
  GenerationContext, succeeded_job, reviewing, get_job, get_guide_session, succeed_job,
  review_draft, claimed_at, put_job, review_row, update_job,
}
use mite.Service.Env.{Outcome}
use mite.Service.Generation.{
  announced, is_claimed, create_drafts, review_drafts, review_events, succeed_work, finish_success,
}
use mite.Service.Generation.Drafts.{AreDrafts, Added, create_drafts-Added}
use mite.Service.Generation.Told.{AreTold, review_events-AreTold}
use mite.Service.Generation.Evolves.{IsFiled}

-- The key of a session is its id.
abbrev pub IsSessionFiled : Db → Type 0
IsSessionFiled db = (id : DomainId) (s : SupportSession) → db.sessions id ≡ some s → s.id ≡ id

module _ (refuses : Query → Bool) (now later : Time) (fresh : Str → ℕ → DomainId)
    (claimed : GuideGenerationJob) (context : GenerationContext) where
  -- The job is still the one that was claimed, and its session waits for the guide.
  abbrev pub wanted : GuideGenerationJob → SupportSession → Bool
  wanted job session = not (
      not (is_claimed refuses now later fresh claimed context job)
      || session.status != SupportSessionStatus.generating_guide)

  -- The rows that a success holds.
  abbrev pub IsHeld : Db → GuideGenerationJob → SupportSession → Type 0
  IsHeld db job session =
      (db.jobs claimed.id ≡ some job) × (db.sessions context.support_session_id ≡ some session)

  -- The row of a job that succeeded with a draft.
  abbrev pub IsSucceededRow : DomainId → GuideGenerationJob → GuideGenerationJob → Type 0
  IsSucceededRow draft_id job row =
      (row.id ≡ claimed.id)
      × (row.batch_id ≡ job.batch_id)
      × (row.status ≡ GuideGenerationJobStatus.succeeded)
      × (row.attempt ≡ job.attempt)
      × (row.guide_draft_id ≡ some draft_id)
      × (row.error_code ≡ none)
      × (row.started_at ≡ job.started_at)
      × (row.finished_at ≡ some now)
      × (row.revision ≡ job.revision + 1)

  -- The row of a session that reviews a draft: nothing but what the record update names is new.
  abbrev pub IsReviewingRow : DomainId → SupportSession → SupportSession → Type 0
  IsReviewingRow draft_id session row = row ≡ record session {
    status = SupportSessionStatus.reviewing_guide;
    guide_draft_id = some draft_id;
    updated_at = now;
    revision = session.revision + 1;
  }

  -- The outputs are stored as drafts to review, the rows of the job and of the session change,
  -- nothing else does, and the events tell of all of them.
  abbrev pub IsReviewed :
      List GeneratedGuide → GuideGenerationJob → SupportSession → Db → Db → List Event → Type 0
  IsReviewed outputs job session db db' events =
      (draft : GuideDraft) × (drafts : List GuideDraft) × (job_row : GuideGenerationJob)
      × (session_row : SupportSession) × AreDrafts session.id 1 outputs (draft ∷ drafts)
      × (db'.drafts session.id ≡ db.drafts session.id ++ draft ∷ drafts)
      × IsSucceededRow draft.id job job_row
      × (db'.jobs claimed.id ≡ some job_row)
      × IsReviewingRow draft.id session session_row
      × (db'.sessions context.support_session_id ≡ some session_row)
      × (db' ≡ record db {
        drafts = db'.drafts;
        jobs = write db.jobs claimed.id (some job_row);
        sessions = write db.sessions context.support_session_id (some session_row);
      })
      × AreTold fresh later 0 session_row job_row (draft ∷ drafts) events

  -- How a success ends: it fails as a whole, it comes too late, or the drafts are to be reviewed.
  abbrev pub Ends : List GeneratedGuide → Db → Outcome (Unit {0}) → Type 0
  Ends outputs db (err e, db', events) = (db' ≡ db) × (events ≡ [])
  Ends outputs db (ok _, db', events) =
      (job : GuideGenerationJob) × (session : SupportSession) × IsHeld db job session
      × (((wanted job session ≡ false) × (db' ≡ db) × (events ≡ []))
          ⊎ ((wanted job session ≡ true) × IsReviewed outputs job session db db' events))

  abbrev Worked : List GeneratedGuide → Db → Res (List Event) × Db → Type 0
  Worked outputs db (err e, db') = Unit
  Worked outputs db (ok events, db') = Ends outputs db (ok tt, db', events)

  settle-Ends :
      (outputs : List GeneratedGuide) (refused : Bool) (db : Db) (x : Res (List Event) × Db)
      → Worked outputs db x
      → Ends outputs db (announced (settle refused db x))
  settle-Ends outputs refused db (err e, d) h = (refl, refl)
  settle-Ends outputs true db (ok events, d) h = (refl, refl)
  settle-Ends outputs false db (ok events, d) h = h

  module _ (outputs : List GeneratedGuide) (db : Db) (job : GuideGenerationJob)
      (session : SupportSession) (held : IsHeld db job session) (same_job : job.id ≡ claimed.id)
      (same_session : session.id ≡ context.support_session_id)
      (want : wanted job session ≡ true) where
    still_claimed : claimed_at claimed.revision job ≡ true
    still_claimed = ground (arith, want)

    still_generating : (session.status == SupportSessionStatus.generating_guide) ≡ true
    still_generating = ground (arith, want)

    -- What the tables hold after the statements, and what the events tell of them.
    tables-IsReviewed :
        (draft : GuideDraft) (drafts : List GuideDraft) (d : Db)
        → Added refuses now later fresh claimed context session.id 1 outputs db
            (ok (draft ∷ drafts), d)
        → IsReviewed outputs job session db
            (record (put_job job.id (succeeded_job draft.id now job) d) {
              sessions = write d.sessions session.id (some (reviewing draft.id now session));
            })
            (review_events refuses now later fresh claimed context
              (succeeded_job draft.id now job)
              (reviewing draft.id now session)
              (draft ∷ drafts))
    tables-IsReviewed draft drafts d (rest, _, _, added, are) =
        let job_row = succeeded_job draft.id now job in
        let session_row = reviewing draft.id now session in
        (
          draft,
          drafts,
          job_row,
          session_row,
          are,
          added,
          (same_job, refl, refl, refl, refl, refl, refl, refl, refl),
          ap (write d.jobs job.id (some job_row)) (sym same_job)
              ∙ write_self d.jobs job.id (some job_row),
          refl,
          ap (write d.sessions session.id (some session_row)) (sym same_session)
              ∙ write_self d.sessions session.id (some session_row),
          ap
                (λ (x : Db). record x {
                  jobs = write x.jobs job.id (some job_row);
                  sessions = write x.sessions session.id (some session_row);
                })
                rest
              ∙ ap
                  (λ id. record db {
                    drafts = d.drafts;
                    jobs = write db.jobs id (some job_row);
                    sessions = write db.sessions session.id (some session_row);
                  })
                  same_job
              ∙ ap
                  (λ id. record db {
                    drafts = d.drafts;
                    jobs = write db.jobs claimed.id (some job_row);
                    sessions = write db.sessions id (some session_row);
                  })
                  same_session,
          review_events-AreTold refuses now later fresh claimed context session_row job_row
              (draft ∷ drafts),
        )

    -- The statements after the drafts, on tables with the same jobs and sessions.
    reviewed-Worked :
        (draft : GuideDraft) (drafts : List GuideDraft) (d : Db)
        → Added refuses now later fresh claimed context session.id 1 outputs db
            (ok (draft ∷ drafts), d)
        → Worked outputs db
            (review_drafts refuses now later fresh claimed context session job (draft ∷ drafts) d)
    unfolding succeed_job review_draft
    reviewed-Worked draft drafts d added_drafts =
        let (_, jobs, sessions, _, _) = added_drafts in
        let job_row =
          ap (λ (t : DomainId → Option GuideGenerationJob). t job.id) jobs
          ∙ ap db.jobs same_job
          ∙ held.0 in
        let session_row =
          ap (λ (t : DomainId → Option SupportSession). t session.id) sessions
          ∙ ap db.sessions same_session
          ∙ held.1 in
        elim (Bool-cases (refuses Query.succeed_job)) [
          | inl a ↦ rw a tt
          | inr a ↦ elim (Bool-cases (refuses Query.review_draft)) [
            | inl b ↦ rw (a, job_row, still_claimed, update_job, b) tt
            | inr b ↦
                rw
                  (
                    a, job_row, still_claimed, update_job, b, session_row, still_generating,
                    review_row,
                  )
                  (job, session, held, inr (want, tables-IsReviewed draft drafts d added_drafts))
          ]
        ]

  succeed_work-Worked :
      (outputs : List GeneratedGuide) (db : Db)
      → IsFiled db.jobs
      → IsSessionFiled db
      → Worked outputs db (succeed_work refuses now later fresh claimed context outputs db)
  unfolding succeed_work get_guide_session get_job
  succeed_work-Worked outputs db filed sessions_filed =
      elim (Bool-cases (refuses Query.lock_guide_session)) [
        | inl a ↦ rw a tt
        | inr a ↦ elim (Option-cases (db.sessions context.support_session_id)) [
          | inl n ↦ rw (a, n) tt
          | inr (session, n) ↦ elim (Bool-cases (refuses Query.lock_job)) [
            | inl b ↦ rw (a, n, b) tt
            | inr b ↦ elim (Option-cases (db.jobs claimed.id)) [
              | inl m ↦ rw (a, n, b, m) tt
              | inr (job, m) ↦ elim (Bool-cases (wanted job session)) [
                | inr w ↦
                    let late : (not (is_claimed refuses now later fresh claimed context job)
                          || session.status != SupportSessionStatus.generating_guide)
                        ≡ true =
                      ground (arith, w) in
                    rw (a, n, b, m, late) (job, session, (m, n), inl (w, refl, refl))
                | inl w ↦
                    let due : (not (is_claimed refuses now later fresh claimed context job)
                          || session.status != SupportSessionStatus.generating_guide)
                        ≡ false =
                      ground (arith, w) in
                    rw (a, n, b, m, due)
                      (after job session (m, n) w
                        (create_drafts refuses now later fresh claimed context session.id 0 outputs
                          db)
                        (create_drafts-Added refuses now later fresh claimed context session.id 0
                          outputs db))
              ]
            ]
          ]
        ]
      ]
    where
      after :
          (job : GuideGenerationJob) (session : SupportSession)
          → IsHeld db job session
          → wanted job session ≡ true
          → (x : Res (List GuideDraft) × Db)
          → Added refuses now later fresh claimed context session.id 1 outputs db x
          → Worked outputs db
              (go_on x (review_drafts refuses now later fresh claimed context session job))
      after job session held want (err e, d) h = tt
      after job session held want (ok [], d) h = tt
      after job session held want (ok (draft ∷ drafts), d) h =
          reviewed-Worked outputs db job session held (filed claimed.id job held.0)
            (sessions_filed context.support_session_id session held.1) want draft drafts d h

  -- If jobs and sessions have their keys, `finishSuccess` either fails with nothing changed or
  -- published; or it finds the job and the session, and then nothing is changed or published if the
  -- job is not the running one that was claimed or the session does not wait for its guide, and
  -- otherwise the outputs are stored in their order as drafts in editing of the session, numbered
  -- from 1, the job is SUCCEEDED at its next revision with the first of them and without an error
  -- code, the session is REVIEWING_GUIDE at its next revision with that draft, nothing else changes
  -- but the table of drafts, and the user and the family are told, in this order and of nothing
  -- else, of each draft, of the job and of the session, each with its id, revision and content.
  pub finish_success-Ends :
      (outputs : List GeneratedGuide) (db : Db)
      → IsFiled db.jobs
      → IsSessionFiled db
      → Ends outputs db (finish_success refuses now later fresh claimed context outputs db)
  unfolding finish_success transact
  finish_success-Ends outputs db filed sessions_filed =
      settle-Ends outputs (refuses Query.commit) db
        (succeed_work refuses now later fresh claimed context outputs db)
        (succeed_work-Worked outputs db filed sessions_filed)

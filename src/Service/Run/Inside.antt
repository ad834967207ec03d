-- ===== src/Service/Run/Inside.antt =====
-- The runs stay inside their guides, and each of them is written by its owner only
-- (server/internal/service/guides.go).
use mathlib.Core.Path.{subst}
use mite.Prelude.{
  ℕ, ◌+◌, ◌≤◌, ◌≡◌, refl, ◌∙◌, sym, ap, ◌⊎◌, inl, inr, Bool, true, false, not, ◌||◌, some,
  Bool-cases, Result-cases, List, ok, err, ◌==◌, eq_of_==, eq_nat, ltb, write-cases,
}
use mite.Text.{eq_str}
use mite.Domain.Errors.{Res}
use mite.Domain.Enums.{Role, GuideRunStatus, eq_guide_run_status}
use mite.Domain.Status.{action_valid, run_can_transition}
use mite.Domain.Value.{DomainId}
use mite.Domain.User.{Actor}
use mite.Domain.Guide.{GuideRun}
use mite.Domain.Event.{Event}
use mite.Domain.Support.{Time}
use mite.Repository.{Db, Query, settle, transact}
use mite.Repository.Runs.{put_run}
use mite.Service.Run.{
  UpdateGuideRunCommand, update_work, update_guide_run, finish_work, validate_actor_role,
  report_run,
}
use mite.Service.Run.Rows.{
  step_total, Change, Written, IsFiled, update_work-Written, finish_work-Written,
}

-- The current step is one of the guide's, and it is the last one where the run is completed.
abbrev pub IsInside : Db → DomainId → GuideRun → Type 0
IsInside db id run =
    (run.id ≡ id)
    × (1 ≤ run.current_step_number)
    × (run.current_step_number ≤ step_total db run)
    × (run.status ≡ GuideRunStatus.completed → run.current_step_number ≡ step_total db run)

abbrev pub AreInside : Db → Type 0
AreInside db = (id : DomainId) (run : GuideRun) → db.runs id ≡ some run → IsInside db id run

-- The row of an id after a call: as before, or that of the call, held by its owner at the revision
-- that was expected, with the next revision and a status that the table allows.
abbrev pub Follows : Actor → DomainId → ℕ → Db → Db → DomainId → Type 0
Follows actor id expected db db' j =
    (db'.runs j ≡ db.runs j)
    ⊎ ((run : GuideRun) × (run' : GuideRun) × (id ≡ j)
        × (db.runs id ≡ some run)
        × (db'.runs j ≡ some run')
        × (run.user_id ≡ actor.id)
        × (run.revision ≡ expected)
        × (run'.revision ≡ expected + 1)
        × ((run'.status ≡ run.status) ⊎ (run_can_transition run.status run'.status ≡ true)))

Change-IsInside :
    (db : Db) (now : Time) (id : DomainId) (run run' : GuideRun)
    → run.status ≡ GuideRunStatus.in_progress
    → IsInside db id run
    → Change db now run run'
    → IsInside db id run'
Change-IsInside db now id run _ going inside (Change.moves step low high) =
    (inside.0, low, high, λ e. absurd (let k = sym going ∙ e in cc))
Change-IsInside db now id run _ going inside (Change.completes last) =
    (inside.0, inside.1, inside.2, λ e. last)
Change-IsInside db now id run _ going inside Change.cancels =
    (inside.0, inside.1, inside.2, λ e. cc)

Change-status :
    (db : Db) (now : Time) (run run' : GuideRun)
    → run.status ≡ GuideRunStatus.in_progress
    → Change db now run run'
    → (run'.revision ≡ run.revision + 1)
      × ((run'.status ≡ run.status) ⊎ (run_can_transition run.status run'.status ≡ true))
unfolding run_can_transition
Change-status db now run _ going (Change.moves step low high) = (refl, inl refl)
Change-status db now run _ going (Change.completes last) = (refl, inr (rw going refl))
Change-status db now run _ going Change.cancels = (refl, inr (rw going refl))

Written-AreInside :
    (now : Time) (actor : Actor) (id : DomainId) (expected : ℕ) (db db' : Db)
    → AreInside db
    → Written now actor id expected db db'
    → AreInside db'
Written-AreInside now actor id expected db db' inside (inl same) = subst AreInside (sym same) inside
Written-AreInside now actor id expected db db' inside (inr (run, run', held, change, same)) =
    subst AreInside (sym same) written
  where
    written : AreInside (put_run id run' db)
    written j row h = elim (write-cases db.runs id j run' row h) [
      | inl (e, same_row) ↦
          let next = Change-IsInside db now id run run' held.3 (inside id run held.0) change in
          rw (e, same_row) next
      | inr (apart, old) ↦ inside j row old
    ]

Written-Follows :
    (now : Time) (actor : Actor) (id : DomainId) (expected : ℕ) (db db' : Db)
    → Written now actor id expected db db'
    → (j : DomainId) → Follows actor id expected db db' j
Written-Follows now actor id expected db db' (inl same) j = inl (ap (λ (x : Db). x.runs j) same)
Written-Follows now actor id expected db db' (inr (run, run', held, change, same)) j =
    elim (Bool-cases (id == j)) [
      | inr q ↦ inl (ap (λ (x : Db). x.runs j) same ∙ rw q refl)
      | inl q ↦
          let status = Change-status db now run run' held.3 change in
          inr (
            run,
            run',
            eq_of_== id j q,
            held.0,
            ap (λ (x : Db). x.runs j) same ∙ rw q refl,
            held.1,
            held.2,
            status.0 ∙ ap (λ (n : ℕ). n + 1) held.2,
            status.1,
          )
    ]

report_run-state : (x : Res (GuideRun × List Event) × Db) → (report_run x).1 ≡ x.1
report_run-state (err e, db) = refl
report_run-state (ok (run, events), db) = refl

transact-Written :
    (now : Time) (actor : Actor) (id : DomainId) (expected : ℕ) (db : Db) (refused : Bool)
    (x : Res (GuideRun × List Event) × Db)
    → Written now actor id expected db x.1
    → Written now actor id expected db (settle refused db x).1
transact-Written now actor id expected db refused (err e, db') w = inl refl
transact-Written now actor id expected db true (ok a, db') w = inl refl
transact-Written now actor id expected db false (ok a, db') w = w

AreInside-IsFiled : (db : Db) → AreInside db → IsFiled db
AreInside-IsFiled db inside id run h = (inside id run h).0

module _ (refuses : Query → Bool) (now later : Time) (event_id : DomainId) where
  update_guide_run-Written :
      (command : UpdateGuideRunCommand) (db : Db)
      → IsFiled db
      → Written now command.actor command.run_id command.expected_revision db
          (update_guide_run refuses now later event_id command db).1
  unfolding update_guide_run transact
  update_guide_run-Written command db filed =
      elim (Result-cases (validate_actor_role command.actor Role.user)) [
        | inl (e, v) ↦ rw (update_guide_run, v) (inl refl)
        | inr (_, v) ↦
            elim (Bool-cases
              (ltb command.expected_revision 1 || not (action_valid command.action))) [
                | inl b ↦ rw (update_guide_run, v, b) (inl refl)
                | inr b ↦
                    let work = update_work refuses now later event_id command db in
                    let whole = settle (refuses Query.commit) db work in
                    rw (update_guide_run, v, b, report_run-state whole)
                      (transact-Written now command.actor command.run_id command.expected_revision
                        db (refuses Query.commit) work
                        (update_work-Written refuses now later event_id command db filed))
              ]
      ]

  -- If every run of the table is inside its guide, this is so after `UpdateGuideRun`, however it
  -- ends; a row is as before, or it is the one of the command, which its owner read at the expected
  -- revision.
  pub update_guide_run-Keeps :
      (command : UpdateGuideRunCommand) (db : Db)
      → AreInside db
      → AreInside (update_guide_run refuses now later event_id command db).1
        × ((j : DomainId)
            → Follows command.actor command.run_id command.expected_revision db
                (update_guide_run refuses now later event_id command db).1
                j)
  update_guide_run-Keeps command db inside =
      let w = update_guide_run-Written command db (AreInside-IsFiled db inside) in
      let db' = (update_guide_run refuses now later event_id command db).1 in
      (
        Written-AreInside now command.actor command.run_id command.expected_revision db db' inside
            w,
        Written-Follows now command.actor command.run_id command.expected_revision db db' w,
      )

  -- If every run of the table is inside its guide, this is so after the work of `CompleteGuideRun`
  -- or `CancelGuideRun`, also where the work ends with an error; a row is as before, or it is the one
  -- that is ended, which its owner read at the expected revision.
  pub finish_work-Keeps :
      (actor : Actor) (id : DomainId) (expected : ℕ) (cancel : Bool) (db : Db)
      → AreInside db
      → AreInside (finish_work refuses now later event_id actor id expected cancel db).1
        × ((j : DomainId)
            → Follows actor id expected db
                (finish_work refuses now later event_id actor id expected cancel db).1
                j)
  finish_work-Keeps actor id expected cancel db inside =
      let db' = (finish_work refuses now later event_id actor id expected cancel db).1 in
      let w =
        finish_work-Written refuses now later event_id actor id expected cancel db
          (AreInside-IsFiled db inside) in
      (
        Written-AreInside now actor id expected db db' inside w,
        Written-Follows now actor id expected db db' w,
      )

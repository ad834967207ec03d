-- ===== src/Service/Run/Rows.antt =====
-- What the use cases of a guide run (server/internal/service/guides.go) make of its row.
use mite.Prelude.{
  ℕ, ◌≤◌, ◌≡◌, refl, ap, ◌⊎◌, inl, inr, arith, Bool, true, false, some, Bool-cases, Option-cases,
  Result-cases, ok, err, ◌==◌, ◌!=◌, eq_of_==, eq_nat,
}
use mite.Text.{Str, eq_str}
use mite.Domain.Errors.{Res}
use mite.Domain.Enums.{GuideRunAction, GuideRunStatus, eq_guide_run_status}
use mite.Domain.Value.{DomainId}
use mite.Domain.User.{Actor}
use mite.Domain.Guide.{GuideRun, move_guide_step, can_complete_guide_run}
use mite.Domain.Guide.Steps.{move_guide_step_iff}
use mite.Domain.Support.{Time}
use mite.Repository.{Db, Tx, Query, go_on}
use mite.Repository.Runs.{
  put_run, moved_run, completed_run, cancelled_run, get_run, lock_owner, get_step_count, get_pair,
  move_run, complete_run, cancel_run, update_run,
}
use mite.Service.Run.{
  last_step, UpdateGuideRunCommand, in_progress, check_revision, hold_run, tell, move_held,
  update_work, end_run, finish_work,
}

-- A row that its owner holds at the revision that was expected.
abbrev pub IsHeld : Db → Actor → DomainId → ℕ → GuideRun → Type 0
IsHeld db actor id expected run =
    (db.runs id ≡ some run)
    × (run.user_id ≡ actor.id)
    × (run.revision ≡ expected)
    × (run.status ≡ GuideRunStatus.in_progress)

abbrev pub Holds : Db → Actor → DomainId → ℕ → Res GuideRun × Db → Type 0
Holds db actor id expected (err e, db') = db' ≡ db
Holds db actor id expected (ok run, db') = (db' ≡ db) × IsHeld db actor id expected run

same_owner : (a b : Str) → (a != b) ≡ false → a ≡ b
same_owner a b h = eq_of_== a b (ground arith)

same_revision : (a b : ℕ) → (a != b) ≡ false → a ≡ b
same_revision a b h = eq_of_== a b (ground arith)

still_open : (run : GuideRun) → in_progress run ≡ true → run.status ≡ GuideRunStatus.in_progress
still_open run h = eq_of_== run.status GuideRunStatus.in_progress h

pub open_still : (run : GuideRun) → run.status ≡ GuideRunStatus.in_progress → in_progress run ≡ true
open_still run h = ap (λ (s : GuideRunStatus). s == GuideRunStatus.in_progress) h

module _ (refuses : Query → Bool) where
  pub hold_run-Holds :
      (actor : Actor) (id : DomainId) (expected : ℕ) (db : Db)
      → Holds db actor id expected (hold_run refuses actor id expected db)
  unfolding hold_run get_run lock_owner check_revision
  hold_run-Holds actor id expected db = elim (Bool-cases (refuses Query.get_run)) [
    | inl a ↦ rw a refl
    | inr a ↦ elim (Option-cases (db.runs id)) [
      | inl n ↦ rw (a, n) refl
      | inr (run, n) ↦ elim (Bool-cases (run.user_id != actor.id)) [
        | inl o ↦ rw (a, n, o) refl
        | inr o ↦ elim (Bool-cases (refuses Query.lock_owner)) [
          | inl b ↦ rw (a, n, o, b) refl
          | inr b ↦ elim (Option-cases (db.users run.user_id)) [
            | inl u ↦ rw (a, n, o, b, u) refl
            | inr (role, u) ↦ elim (Bool-cases (refuses Query.lock_run)) [
              | inl c ↦ rw (a, n, o, b, u, c) refl
              | inr c ↦ elim (Bool-cases (run.revision != expected)) [
                | inl r ↦ rw (a, n, o, b, u, c, n, r) refl
                | inr r ↦ elim (Bool-cases (in_progress run)) [
                  | inr p ↦ rw (a, n, o, b, u, c, n, r, p) refl
                  | inl p ↦
                      rw (a, n, o, b, u, c, n, r, p)
                        (
                          refl,
                          (
                            n,
                            same_owner run.user_id actor.id o,
                            same_revision run.revision expected r,
                            still_open run p,
                          ),
                        )
                ]
              ]
            ]
          ]
        ]
      ]
    ]
  ]

abbrev pub step_total : Db → GuideRun → ℕ
step_total db run = db.step_counts run.guide_id run.guide_version_number

-- What becomes of a run that is held.
pub data Change (db : Db) (now : Time) (run : GuideRun) : GuideRun → Type 0 where
  moves :
      (step : ℕ) → 1 ≤ step → step ≤ step_total db run → Change db now run (moved_run step now run)
  completes :
      run.current_step_number ≡ step_total db run → Change db now run (completed_run now run)
  cancels : Change db now run (cancelled_run now run)

-- The tables after a use case: as before, or with one row written.
abbrev pub Written : Time → Actor → DomainId → ℕ → Db → Db → Type 0
Written now actor id expected db db' =
    (db' ≡ db)
    ⊎ ((run : GuideRun) × (run' : GuideRun) × IsHeld db actor id expected run
        × Change db now run run'
        × (db' ≡ put_run id run' db))

-- The key of a row is its id.
abbrev pub IsFiled : Db → Type 0
IsFiled db = (id : DomainId) (run : GuideRun) → db.runs id ≡ some run → run.id ≡ id

module _ (refuses : Query → Bool) (now later : Time) (event_id : DomainId) where
  tell-state : (x : Res GuideRun × Db) → (go_on x (tell refuses now later event_id)).1 ≡ x.1
  unfolding tell get_pair
  tell-state (err e, db) = refl
  tell-state (ok run, db) = elim (Bool-cases (refuses Query.get_pair)) [
    | inl a ↦ rw a refl
    | inr a ↦ elim (Option-cases (db.pairs run.user_id)) [
      | inl n ↦ rw (a, n) refl
      | inr (pair, n) ↦ rw (a, n) refl
    ]
  ]

  module _ (actor : Actor) (id : DomainId) (expected : ℕ) (db : Db) (run : GuideRun)
      (held : IsHeld db actor id expected run) (same : run.id ≡ id) where
    move_held-Written :
        (action : GuideRunAction)
        → Written now actor id expected db (move_held refuses now later event_id action run db).1
    unfolding move_held get_step_count move_run
    move_held-Written action = elim (Bool-cases (refuses Query.step_count)) [
      | inl a ↦ rw a (inl refl)
      | inr a ↦
          elim (Result-cases (move_guide_step run.current_step_number (step_total db run) action)) [
            | inl (e, m) ↦ rw (a, m) (inl refl)
            | inr (step, m) ↦ elim (Bool-cases (refuses Query.move_run)) [
              | inl b ↦ rw (a, m, b) (inl refl)
              | inr b ↦
                  let fits =
                    (move_guide_step_iff run.current_step_number (step_total db run) step action).0
                      m in
                  rw (a, m, b, same, held.0)
                    (inr (
                      run,
                      moved_run step now run,
                      (refl, held.1, held.2, held.3),
                      Change.moves step (ground arith) (ground arith),
                      refl,
                    ))
            ]
          ]
    ]

    end_run-Written :
        (cancel : Bool)
        → Written now actor id expected db (end_run refuses now later event_id cancel run db).1
    unfolding end_run last_step get_step_count can_complete_guide_run complete_run cancel_run
    end_run-Written true = elim (Bool-cases (refuses Query.cancel_run)) [
      | inl a ↦ rw a (inl refl)
      | inr a ↦
          rw (a, same, held.0, update_run, open_still run held.3)
            (inr (
              run,
              cancelled_run now run,
              (refl, held.1, held.2, held.3),
              Change.cancels,
              ap (λ (x : DomainId). put_run x (cancelled_run now run) db) same,
            ))
    ]
    end_run-Written false = elim (Bool-cases (refuses Query.step_count)) [
      | inl a ↦ rw a (inl refl)
      | inr a ↦
          elim (Bool-cases (can_complete_guide_run run.current_step_number (step_total db run))) [
            | inr c ↦ rw (a, c) (inl refl)
            | inl c ↦ elim (Bool-cases (refuses Query.complete_run)) [
              | inl b ↦ rw (a, c, b) (inl refl)
              | inr b ↦
                  rw (a, c, b, same, held.0)
                    (inr (
                      run,
                      completed_run now run,
                      (refl, held.1, held.2, held.3),
                      Change.completes (ground arith),
                      refl,
                    ))
            ]
          ]
    ]

  after-Written :
      (actor : Actor) (id : DomainId) (expected : ℕ) (db : Db) (rest : GuideRun → Tx GuideRun)
      (x : Res GuideRun × Db)
      → Holds db actor id expected x
      → ((run : GuideRun)
          → IsHeld db actor id expected run
          → Written now actor id expected db (rest run db).1)
      → Written now actor id expected db
          (go_on x (λ run db'. go_on (rest run db') (tell refuses now later event_id))).1
  after-Written actor id expected db rest (err e, db') same step = inl same
  after-Written actor id expected db rest (ok run, db') (same, held) step =
      rw (same, tell-state (rest run db)) (step run held)

  pub update_work-Written :
      (command : UpdateGuideRunCommand) (db : Db)
      → IsFiled db
      → Written now command.actor command.run_id command.expected_revision db
          (update_work refuses now later event_id command db).1
  unfolding update_work
  update_work-Written command db filed =
      after-Written command.actor command.run_id command.expected_revision db
        (move_held refuses now later event_id command.action)
        (hold_run refuses command.actor command.run_id command.expected_revision db)
        (hold_run-Holds refuses command.actor command.run_id command.expected_revision db)
        (λ run held.
          move_held-Written command.actor command.run_id command.expected_revision db run held
            (filed command.run_id run held.0) command.action)

  pub finish_work-Written :
      (actor : Actor) (id : DomainId) (expected : ℕ) (cancel : Bool) (db : Db)
      → IsFiled db
      → Written now actor id expected db
          (finish_work refuses now later event_id actor id expected cancel db).1
  unfolding finish_work
  finish_work-Written actor id expected cancel db filed =
      after-Written actor id expected db (end_run refuses now later event_id cancel)
        (hold_run refuses actor id expected db) (hold_run-Holds refuses actor id expected db)
        (λ run held. end_run-Written actor id expected db run held (filed id run held.0) cancel)

-- ===== src/Repository/Runs.antt =====
-- The statements on `guide_runs` of server/internal/repository/guides.go, with
-- db/queries/guides.sql: the runs, their owners, and the steps of their guides.
use mite.Prelude.{ℕ, ◌+◌, Bool, true, false, Option, none, some, write, ◌==◌, ok, err}
use mite.Text.{eq_str}
use mite.Domain.Errors.{no_rows}
use mite.Domain.Enums.{GuideRunStatus, eq_guide_run_status}
use mite.Domain.Value.{DomainId}
use mite.Domain.User.{UserPair}
use mite.Domain.Guide.{GuideRun}
use mite.Domain.Support.{Time}
use mite.Repository.{Db, Tx, Query, guarded}

abbrev pub put_run : DomainId → GuideRun → Db → Db
put_run id run db = record db { runs = write db.runs id (some run) }

-- The rows that the updates return.
abbrev pub moved_run : ℕ → Time → GuideRun → GuideRun
moved_run step now run = record run {
  current_step_number = step;
  updated_at = now;
  revision = run.revision + 1;
}

abbrev pub completed_run : Time → GuideRun → GuideRun
completed_run now run = record run {
  status = GuideRunStatus.completed;
  completed_at = some now;
  updated_at = now;
  revision = run.revision + 1;
}

abbrev pub cancelled_run : Time → GuideRun → GuideRun
cancelled_run now run = record run {
  status = GuideRunStatus.cancelled;
  updated_at = now;
  revision = run.revision + 1;
}

-- A statement of which one row is expected.
abbrev pub one {ℓ} : {A : Type ℓ} → Option A → Tx A
one none db = (err no_rows, db)
one (some a) db = (ok a, db)

-- `UPDATE … WHERE id = $1 AND … RETURNING *`.
abbrev pub update_run :
    (GuideRun → Bool) → (GuideRun → GuideRun) → DomainId → Option GuideRun → Tx GuideRun
update_run p f id none db = (err no_rows, db)
update_run p f id (some run) db = elim (p run) [
  | true ↦ (ok (f run), put_run id (f run) db)
  | false ↦ (err no_rows, db)
]

module _ (refuses : Query → Bool) where
  -- `GetRun`, with or without `FOR UPDATE`.
  unfoldable pub get_run : DomainId → Bool → Tx GuideRun
  get_run id true db = guarded (refuses Query.lock_run) (one (db.runs id)) db
  get_run id false db = guarded (refuses Query.get_run) (one (db.runs id)) db

  -- `LockUser`.
  unfoldable pub lock_owner : DomainId → Tx (Unit {0})
  lock_owner id db =
      guarded (refuses Query.lock_owner)
        (one (elim (db.users id) [ none ↦ none | some role ↦ some tt ])) db

  unfoldable pub get_step_count : DomainId → ℕ → Tx ℕ
  get_step_count guide_id version db =
      guarded (refuses Query.step_count) (λ db. (ok (db.step_counts guide_id version), db)) db

  unfoldable pub get_pair : DomainId → Tx UserPair
  get_pair actor_id db = guarded (refuses Query.get_pair) (one (db.pairs actor_id)) db

  unfoldable pub move_run : DomainId → ℕ → Time → Tx GuideRun
  move_run id step now db =
      guarded (refuses Query.move_run)
        (update_run (λ run. true) (moved_run step now) id (db.runs id)) db

  unfoldable pub complete_run : DomainId → Time → Tx GuideRun
  complete_run id now db =
      guarded (refuses Query.complete_run)
        (update_run (λ run. true) (completed_run now) id (db.runs id)) db

  -- Only a run in progress is cancelled.
  unfoldable pub cancel_run : DomainId → Time → Tx GuideRun
  cancel_run id now db =
      guarded (refuses Query.cancel_run)
        (update_run (λ run. run.status == GuideRunStatus.in_progress) (cancelled_run now) id
          (db.runs id))
        db

-- ===== src/Repository/Deletions.antt =====
-- The rows of `artifact_deletion_tasks`: server/internal/repository/artifact_support.go with
-- db/queries/artifact_deletion_tasks.sql. The server has one worker, so no row is locked by another.
use mathlib.Core.Option
use mite.Prelude.{
  ◌+◌, Bool, ◌&&◌, ◌||◌, not, Option, none, some, List, [], ◌∷◌, if◌then◌else◌, ltb, leb, ◌==◌,
  eq_nat, ok, err,
}
use mite.Text.{eq_str}
use mite.Domain.Errors.{Res, fail, no_rows, internal_error}
use mite.Domain.Value.{DomainId}
use mite.Domain.Artifact.{
  ArtifactDeletionTask, ArtifactDeletionTaskStatus, eq_deletion_status, deletion_status_valid,
}
use mite.Domain.Support.{Time}
use mite.Repository.{Db, Tx, Query, pure, lift, guarded, ◌>>=◌}

-- `deletionTaskFromDB`.
unfoldable pub task_from_db : ArtifactDeletionTask → Res ArtifactDeletionTask
task_from_db t = if not (deletion_status_valid t.status) then fail internal_error else ok t

-- `WHERE …` of an update, the row that it returns, and what it makes of the table.
unfoldable pub find_where :
    (ArtifactDeletionTask → Bool) → List ArtifactDeletionTask → Option ArtifactDeletionTask
find_where p [] = none
find_where p (t ∷ ts) = let rest = find_where p ts in if p t then some t else rest

unfoldable pub update_where :
    (ArtifactDeletionTask → Bool)
    → (ArtifactDeletionTask → ArtifactDeletionTask)
    → List ArtifactDeletionTask
    → List ArtifactDeletionTask
update_where p f [] = []
update_where p f (t ∷ ts) = let rest = update_where p f ts in if p t then f t ∷ rest else t ∷ rest

-- `DELETE … WHERE id = $1`.
unfoldable pub without : DomainId → List ArtifactDeletionTask → List ArtifactDeletionTask
without id [] = []
without id (t ∷ ts) = let rest = without id ts in if t.id == id then rest else t ∷ rest

abbrev pub is_running : ArtifactDeletionTask → Bool
is_running t = t.status == ArtifactDeletionTaskStatus.running

abbrev pub is_pending : ArtifactDeletionTask → Bool
is_pending t = t.status == ArtifactDeletionTaskStatus.pending

-- `status = 'PENDING' AND next_attempt_at <= now`.
abbrev pub is_due : Time → ArtifactDeletionTask → Bool
is_due now t = is_pending t && leb t.next_attempt_at now

-- `ORDER BY next_attempt_at, created_at LIMIT 1`.
abbrev pub earlier : ArtifactDeletionTask → ArtifactDeletionTask → Bool
earlier t u =
    ltb t.next_attempt_at u.next_attempt_at
    || (t.next_attempt_at == u.next_attempt_at && ltb t.created_at u.created_at)

abbrev pub sooner : ArtifactDeletionTask → Option ArtifactDeletionTask → Option ArtifactDeletionTask
sooner t none = some t
sooner t (some u) = if earlier u t then some u else some t

unfoldable pub next_due : Time → List ArtifactDeletionTask → Option ArtifactDeletionTask
next_due now [] = none
next_due now (t ∷ ts) = let rest = next_due now ts in if is_due now t then sooner t rest else rest

abbrev pub to_pending : ArtifactDeletionTask → ArtifactDeletionTask
to_pending t = record t { status = ArtifactDeletionTaskStatus.pending }

abbrev pub to_running : ArtifactDeletionTask → ArtifactDeletionTask
to_running t = record t { status = ArtifactDeletionTaskStatus.running; attempt = t.attempt + 1 }

abbrev pub retried : Time → ArtifactDeletionTask → ArtifactDeletionTask
retried next t = record t { status = ArtifactDeletionTaskStatus.pending; next_attempt_at = next }

-- A task that is found is checked before it is handed on.
abbrev pub found_task : Option ArtifactDeletionTask → Tx (Option ArtifactDeletionTask)
found_task none = pure none
found_task (some t) = do value ← lift (task_from_db t); pure (some value)

abbrev pub put_tasks : List ArtifactDeletionTask → Db → Db
put_tasks tasks db = record db { deletions = tasks }

abbrev pub marked_task : DomainId → ArtifactDeletionTask → Bool
marked_task id t = t.id == id && is_pending t

abbrev pub retried_task : DomainId → ArtifactDeletionTask → Bool
retried_task id t = t.id == id && is_running t

-- An update that must return a row.
abbrev pub updated : Option ArtifactDeletionTask → List ArtifactDeletionTask → Tx (Unit {0})
updated none tasks db = (err no_rows, db)
updated (some t) tasks db = (ok tt, put_tasks tasks db)

module _ (refuses : Query → Bool) where
  unfoldable pub reset_running_tasks : Tx (Unit {0})
  reset_running_tasks db =
      guarded (refuses Query.reset_tasks)
        (λ db. (ok tt, put_tasks (update_where is_running to_pending db.deletions) db)) db

  unfoldable pub lock_next_task : Time → Tx (Option ArtifactDeletionTask)
  unfolding task_from_db
  lock_next_task now db =
      guarded (refuses Query.lock_next_task) (found_task (next_due now db.deletions)) db

  unfoldable pub mark_running : DomainId → Tx (Option ArtifactDeletionTask)
  unfolding task_from_db
  mark_running id db =
      guarded (refuses Query.mark_running)
        (λ db.
          found_task (Option.map to_running (find_where (marked_task id) db.deletions))
            (put_tasks (update_where (marked_task id) to_running db.deletions) db))
        db

  unfoldable pub retry_task : DomainId → Time → Tx (Unit {0})
  retry_task id next db =
      guarded (refuses Query.retry_task)
        (λ db.
          updated (find_where (retried_task id) db.deletions)
            (update_where (retried_task id) (retried next) db.deletions) db)
        db

  -- The foreign keys refuse it where the image is in use.
  unfoldable pub delete_artifact : DomainId → Tx (Unit {0})
  delete_artifact id db =
      guarded (refuses Query.delete_artifact)
        (λ db. (ok tt, record db { artifacts = λ a. if id == a then none else db.artifacts a })) db

  unfoldable pub delete_task : DomainId → Tx (Unit {0})
  delete_task id db =
      guarded (refuses Query.delete_task) (λ db. (ok tt, put_tasks (without id db.deletions) db)) db

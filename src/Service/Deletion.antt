-- ===== src/Service/Deletion.antt =====
-- The deletion of images in server/internal/service/artifact_cleanup.go: a task is marked, the object
-- in the storage is deleted, and the task goes, or waits for another attempt. The storage's answer
-- is the argument `delete`, and each of the three transactions has its own refused statements.
pub mod Delay
pub mod Queue
pub mod Splits
pub mod Drained
pub mod Drain
pub mod Recover
use mite.Prelude.{
  ℕ, zero, suc, ◌+◌, ◌-◌, ◌*◌, ◌^◌, Bool, true, false, Option, none, some, List, [], ◌∷◌,
  if◌then◌else◌, ltb, Result, ok, err,
}
use mite.Text.{Str}
use mite.Domain.Errors.{
  Error, ErrorCode, Res, domain, fail, internal_error, external_service_unavailable, error_code_of,
}
use mite.Domain.Value.{DomainId}
use mite.Domain.Support.{Time}
use mite.Domain.Artifact.{ArtifactDeletionTask}
use mite.Repository.{Db, Tx, Query, pure, lift, transact, ◌>>=◌, ◌>>◌}
use mite.Repository.Deletions.{
  reset_running_tasks, lock_next_task, mark_running, retry_task, delete_artifact, delete_task,
}

-- `normalizeRepositoryError`: an error without a code becomes an internal one.
abbrev coded : Option ErrorCode → Error → Error
coded none e = domain internal_error
coded (some code) e = e

unfoldable pub normalize_repository_error : Error → Error
normalize_repository_error e = coded (error_code_of e) e

-- In nanoseconds; `1<<(attempt-1)`, where the attempt is at least 1.
unfoldable pub deletion_retry_delay : ℕ → ℕ
deletion_retry_delay attempt =
    let low = if ltb attempt 1 then 1 else attempt in
    let high = if ltb 12 low then 12 else low in
    let delay = 1000000000 * 2 ^ (high - 1) in
    if ltb 3600000000000 delay then 3600000000000 else delay

abbrev when_artifact : Option DomainId → (DomainId → Tx (Unit {0})) → Tx (Unit {0})
when_artifact none f = pure tt
when_artifact (some id) f = f id

-- `(bool, error)`: whether there was a task, and what went wrong.
abbrev pub Progress : Type 0
Progress = (Bool × Res (Unit {0})) × Db

abbrev marked : Option ArtifactDeletionTask → Tx (Option ArtifactDeletionTask)
marked none = lift (fail internal_error)
marked (some t) = pure (some t)

abbrev pub mark_candidate :
    (Query → Bool) → Option ArtifactDeletionTask → Tx (Option ArtifactDeletionTask)
mark_candidate refuses none = pure none
mark_candidate refuses (some candidate) = do row ← mark_running refuses candidate.id; marked row

-- The first transaction of `ProcessNextArtifactDeletion`.
unfoldable pub take_task : (Query → Bool) → Time → Tx (Option ArtifactDeletionTask)
unfolding lock_next_task mark_running
take_task refuses now =
    transact (refuses Query.commit)
      (do candidate ← lock_next_task refuses now; mark_candidate refuses candidate)

-- The transaction after the object is gone.
unfoldable pub finish_task : (Query → Bool) → ArtifactDeletionTask → Tx (Unit {0})
unfolding delete_artifact delete_task
finish_task refuses task =
    transact (refuses Query.commit)
      (do when_artifact task.artifact_id (delete_artifact refuses); delete_task refuses task.id)

-- The transaction that puts a task off.
unfoldable pub put_off : (Query → Bool) → ArtifactDeletionTask → Time → Tx (Unit {0})
unfolding retry_task deletion_retry_delay
put_off refuses task later =
    transact (refuses Query.commit)
      (retry_task refuses task.id (later + deletion_retry_delay task.attempt))

abbrev pub after_put_off : Res (Unit {0}) × Db → Progress
after_put_off (err e, db) = ((true, err (normalize_repository_error e)), db)
after_put_off (ok done, db) = ((true, fail external_service_unavailable), db)

module _ (first last retry : Query → Bool) (delete : Str → Res (Unit {0})) (now later : Time) where
  abbrev pub after_finish : ArtifactDeletionTask → Res (Unit {0}) × Db → Progress
  after_finish task (err e, db) =
      ((true, err (normalize_repository_error e)), (put_off retry task later db).1)
  after_finish task (ok done, db) = ((true, ok tt), db)

  abbrev pub after_delete : Res (Unit {0}) → ArtifactDeletionTask → Db → Progress
  after_delete (err e) task db = after_put_off (put_off retry task later db)
  after_delete (ok done) task db = after_finish task (finish_task last task db)

  abbrev pub after_take : Res (Option ArtifactDeletionTask) × Db → Progress
  after_take (err e, db) = ((false, err (normalize_repository_error e)), db)
  after_take (ok none, db) = ((false, ok tt), db)
  after_take (ok (some task), db) = after_delete (delete task.storage_key) task db

  unfoldable pub process_next : Db → Progress
  unfolding take_task finish_task put_off normalize_repository_error
  process_next db = after_take (take_task first now db)

-- The ticks of `deletions` in `Run` of server/internal/worker/artifact_deletion.go, at one time and with
-- the same answers, and no maintenance between them.
unfoldable pub ticks :
    (first last retry : Query → Bool) → (Str → Res (Unit {0})) → Time → Time → ℕ → Db → Db
unfolding process_next
ticks first last retry delete now later zero db = db
ticks first last retry delete now later (suc n) db =
    ticks first last retry delete now later n (process_next first last retry delete now later db).1

abbrev normalized : Res (Unit {0}) × Db → Res (Unit {0}) × Db
normalized (err e, db) = (err (normalize_repository_error e), db)
normalized (ok done, db) = (ok tt, db)

-- `RecoverArtifactDeletionTasks`, without the number of rows.
unfoldable pub recover_tasks : (Query → Bool) → Db → Res (Unit {0}) × Db
unfolding reset_running_tasks normalize_repository_error
recover_tasks refuses db =
    normalized (transact (refuses Query.commit) (reset_running_tasks refuses) db)

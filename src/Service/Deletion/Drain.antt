-- ===== src/Service/Deletion/Drain.antt =====
-- The worker of server/internal/worker/artifact_deletion.go gets through the tasks that are due.
use mite.Prelude.{
  ℕ, zero, suc, ◌+◌, ◌≤◌, ◌<◌, ◌≡◌, refl, ◌∙◌, sym, ap, inl, inr, arith, Bool, true, false, none,
  some, List, ◌∷◌, ◌++◌, Option-cases, Result-cases, ok, err, ==_refl, length,
}
use mite.Text.{Str, eq_str}
use mite.Domain.Errors.{Error, Res}
use mite.Domain.Support.{Time}
use mite.Domain.Artifact.{ArtifactDeletionTask, deletion_status_valid, eq_deletion_status}
use mite.Repository.{Db, Query, transact}
use mite.Repository.Deletions.{
  find_where, update_where, without, next_due, is_due, task_from_db, to_running, marked_task,
  retried_task, retried, lock_next_task, mark_running, retry_task, delete_artifact, delete_task,
}
use mite.Service.Deletion.{
  take_task, finish_task, put_off, deletion_retry_delay, process_next, ticks,
}
use mite.Service.Deletion.Splits.{
  IsDistinct, IsDistinct-split, IsDistinct-drop, IsDistinct-swap, find_where-split,
  update_where-split, without-split,
}
use mite.Service.Deletion.Drained.{
  put_back, drained, dues, next_due-IsSplit, dues-le-length, dues-split, dues-kept, next_due-none,
  drained-idle, drained-split, drained-put_back, put_back-rests, drained-none,
}

-- With no statement refused, a tick leaves the tables alone if nothing is due, and tries one task if
-- something is.
module _ (refuses : Query → Bool) (delete : Str → Res (Unit {0})) (now later : Time)
    (up : (q : Query) → refuses q ≡ false) where
  idle :
      (db : Db)
      → next_due now db.deletions ≡ none
      → (process_next refuses refuses refuses delete now later db).1 ≡ db
  unfolding process_next take_task lock_next_task mark_running transact
  idle db n = rw (up Query.lock_next_task, n, up Query.commit) refl

  -- The table of a tick, as the statements see it.
  module _ (db : Db) (xs ys : List ArtifactDeletionTask) (t : ArtifactDeletionTask)
      (next : next_due now db.deletions ≡ some t) (due : is_due now t ≡ true)
      (at : db.deletions ≡ xs ++ t ∷ ys) (distinct : IsDistinct (xs ++ t ∷ ys)) where
    found : find_where (marked_task t.id) db.deletions ≡ some t
    found = rw at (
        find_where-split (marked_task t.id) t.id (λ x e. ground (arith, e)) xs ys t
          (IsDistinct-split xs ys t distinct).0 (ground (arith, due, ==_refl t.id)))

    marks : update_where (marked_task t.id) to_running db.deletions ≡ xs ++ to_running t ∷ ys
    marks = rw at (
        update_where-split (marked_task t.id) t.id (λ x e. ground (arith, e)) to_running xs ys t
          (IsDistinct-split xs ys t distinct).0 (IsDistinct-split xs ys t distinct).1
          (ground (arith, due, ==_refl t.id)))

    refound : find_where (retried_task t.id) (xs ++ to_running t ∷ ys) ≡ some (to_running t)
    refound =
        find_where-split (retried_task t.id) t.id (λ x e. ground (arith, e)) xs ys (to_running t)
          (IsDistinct-split xs ys t distinct).0 (ground (arith, ==_refl t.id))

    puts_back :
        update_where
          (retried_task t.id)
          (retried (later + deletion_retry_delay (t.attempt + 1)))
          (xs ++ to_running t ∷ ys)
        ≡ xs ++ put_back later t ∷ ys
    puts_back =
        update_where-split (retried_task t.id) t.id (λ x e. ground (arith, e))
          (retried (later + deletion_retry_delay (t.attempt + 1))) xs ys (to_running t)
          (IsDistinct-split xs ys t distinct).0 (IsDistinct-split xs ys t distinct).1
          (ground (arith, ==_refl t.id))

    takes_out : (u : ArtifactDeletionTask) → u.id ≡ t.id → without t.id (xs ++ u ∷ ys) ≡ xs ++ ys
    takes_out u same =
        without-split t.id xs ys u (IsDistinct-split xs ys t distinct).0
          (IsDistinct-split xs ys t distinct).1 same

    valid : deletion_status_valid t.status ≡ true
    unfolding deletion_status_valid
    valid = ground (arith, due)

    deleted :
        delete t.storage_key ≡ ok tt
        → (process_next refuses refuses refuses delete now later db).1.deletions ≡ xs ++ ys
    unfolding process_next take_task lock_next_task mark_running finish_task delete_task
        delete_artifact transact task_from_db deletion_status_valid
    deleted a = elim (Option-cases t.artifact_id) [
      | inl o ↦
          rw
            (
              up Query.lock_next_task,
              next,
              valid,
              up Query.mark_running,
              found,
              up Query.commit,
              marks,
              a,
              o,
              up Query.delete_task,
              up Query.commit,
              takes_out (record (to_running t) { artifact_id = none }) refl,
            )
            refl
      | inr (id, o) ↦
          rw
            (
              up Query.lock_next_task,
              next,
              valid,
              up Query.mark_running,
              found,
              up Query.commit,
              marks,
              a,
              o,
              up Query.delete_artifact,
              up Query.delete_task,
              up Query.commit,
              takes_out (record (to_running t) { artifact_id = some id }) refl,
            )
            refl
    ]

    waits :
        (e : Error)
        → delete t.storage_key ≡ err e
        → (process_next refuses refuses refuses delete now later db).1.deletions
          ≡ xs ++ put_back later t ∷ ys
    unfolding process_next take_task lock_next_task mark_running put_off retry_task transact
        task_from_db deletion_status_valid
    waits e a =
        rw
          (
            up Query.lock_next_task,
            next,
            valid,
            up Query.mark_running,
            found,
            up Query.commit,
            marks,
            a,
            up Query.retry_task,
            refound,
            up Query.commit,
            puts_back,
          )
          refl

  -- What a tick on a table with a due task leaves to do: fewer due tasks, and the same in the end.
  progress :
      now ≤ later
      → (db : Db) (t : ArtifactDeletionTask) → next_due now db.deletions ≡ some t
      → IsDistinct db.deletions
      → let db' = (process_next refuses refuses refuses delete now later db).1 in
        IsDistinct db'.deletions
        × (dues now db'.deletions < dues now db.deletions)
        × (drained delete now later db'.deletions ≡ drained delete now later db.deletions)
  progress h db t n distinct =
      let (due, xs, ys, at) = next_due-IsSplit now db.deletions t n in
      let apart : IsDistinct (xs ++ t ∷ ys) = rw (sym at) distinct in
      elim (Result-cases (delete t.storage_key)) [
        | inr (_, a) ↦
            rw (deleted db xs ys t n due at apart a, at)
              (
                IsDistinct-drop xs ys t apart,
                omega (arith, dues-split now xs ys t due),
                drained-split delete now later xs ys t due a,
              )
        | inl (e, a) ↦
            let rests = put_back-rests delete now later h t in
            rw (waits db xs ys t n due at apart e a, at)
              (
                IsDistinct-swap xs ys t (put_back later t) refl apart,
                omega (
                  arith,
                  dues-split now xs ys t due,
                  dues-kept now xs ys (put_back later t) rests,
                ),
                drained-put_back delete now later xs ys t e due a rests,
              )
      ]

  -- Ticks after the last due task change nothing.
  ticks_idle :
      (n : ℕ) (db : Db)
      → next_due now db.deletions ≡ none
      → ticks refuses refuses refuses delete now later n db ≡ db
  unfolding ticks
  ticks_idle zero db h = refl
  ticks_idle (suc n) db h =
      ap (ticks refuses refuses refuses delete now later n) (idle db h) ∙ ticks_idle n db h

  ticks-drained :
      (n : ℕ) (db : Db)
      → now ≤ later
      → IsDistinct db.deletions
      → dues now db.deletions ≤ n
      → (ticks refuses refuses refuses delete now later n db).deletions
        ≡ drained delete now later db.deletions
  unfolding ticks
  ticks-drained zero db h distinct few =
      sym (drained-idle delete now later db.deletions (next_due-none now db.deletions few))
  ticks-drained (suc n) db h distinct few = elim (Option-cases (next_due now db.deletions)) [
    | inl e ↦
        ap (λ (x : Db). x.deletions)
          (ap (ticks refuses refuses refuses delete now later n) (idle db e) ∙ ticks_idle n db e)
        ∙ sym (drained-idle delete now later db.deletions e)
    | inr (t, e) ↦
        let (apart, fewer, same) = progress h db t e distinct in
        ticks-drained n (process_next refuses refuses refuses delete now later db).1 h apart
          (omega (arith, few, fewer))
        ∙ same
  ]

  -- Where no statement is refused, the ids of the tasks are distinct and the clock does not go back,
  -- as many ticks at one time as there are tasks try each task that is due once: it is gone if the
  -- storage deletes its object, and otherwise PENDING again after its delay, with one attempt more.
  -- The other tasks stay as they are, in their places, and no task is due any more.
  pub ticks-done :
      (n : ℕ) (db : Db)
      → now ≤ later
      → IsDistinct db.deletions
      → length db.deletions ≤ n
      → ((ticks refuses refuses refuses delete now later n db).deletions
          ≡ drained delete now later db.deletions)
        × (next_due now (ticks refuses refuses refuses delete now later n db).deletions ≡ none)
  ticks-done n db h distinct few =
      let all =
        ticks-drained n db h distinct (omega (arith, few, dues-le-length now db.deletions)) in
      (all, ap (next_due now) all ∙ drained-none delete now later h db.deletions)

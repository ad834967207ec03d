-- ===== src/Service/Deletion/Queue.antt =====
-- What becomes of the tasks of server/internal/service/artifact_cleanup.go.
use mathlib.Core.Path.{subst}
use mite.Prelude.{
  ◌+◌, ◌≡◌, ◌≢◌, refl, ◌∙◌, sym, ap, ◌⊎◌, inl, inr, arith, Bool, true, false, Option, none, some,
  List, [], ◌∷◌, Bool-cases, Option-cases, Result-cases, ok, err, if◌then◌else◌, ◌==◌, eq_of_==,
  ==_refl,
}
use mite.Text.{Str, eq_str}
use mite.Domain.Errors.{Error, Res, failure}
use mite.Domain.Value.{DomainId}
use mite.Domain.Support.{Time}
use mite.Domain.Artifact.{ArtifactDeletionTask, deletion_status_valid, eq_deletion_status}
use mite.Repository.{Db, Query, transact}
use mite.Repository.Deletions.{
  find_where, update_where, without, next_due, task_from_db, to_running, retried, marked_task,
  retried_task, put_tasks, lock_next_task, mark_running, retry_task, delete_task, delete_artifact,
}
use mite.Service.Deletion.{
  take_task, finish_task, put_off, process_next, after_take, after_delete, after_put_off,
  deletion_retry_delay,
}

-- A row of the table has the id.
unfoldable pub has_id : DomainId → List ArtifactDeletionTask → Bool
has_id id [] = false
has_id id (t ∷ ts) = let rest = has_id id ts in if t.id == id then true else rest

-- A row with the id has an object that the storage deletes.
abbrev pub IsGone : (Str → Res (Unit {0})) → DomainId → List ArtifactDeletionTask → Type 0
IsGone delete id [] = ⊥
IsGone delete id (t ∷ ts) = ((t.id ≡ id) × (delete t.storage_key ≡ ok tt)) ⊎ IsGone delete id ts

pub has_id-update :
    (p : ArtifactDeletionTask → Bool) (f : ArtifactDeletionTask → ArtifactDeletionTask)
    → ((t : ArtifactDeletionTask) → (f t).id ≡ t.id)
    → (id : DomainId) (ts : List ArtifactDeletionTask)
    → has_id id (update_where p f ts) ≡ has_id id ts
unfolding has_id update_where
has_id-update p f same id [] = refl
has_id-update p f same id (t ∷ ts) = elim (Bool-cases (p t)) [
  | inl q ↦ rw (q, same t, has_id-update p f same id ts) refl
  | inr q ↦ rw (q, has_id-update p f same id ts) refl
]

has_id-without :
    (gone id : DomainId) (ts : List ArtifactDeletionTask)
    → gone ≢ id
    → has_id id ts ≡ true
    → has_id id (without gone ts) ≡ true
unfolding has_id without
has_id-without gone id [] ne h = h
has_id-without gone id (t ∷ ts) ne h = elim (Bool-cases (t.id == id)) [
  | inl r ↦ elim (Bool-cases (t.id == gone)) [
    | inl q ↦ absurd (ne (sym (eq_of_== t.id gone q) ∙ eq_of_== t.id id r))
    | inr q ↦ rw (q, r) refl
  ]
  | inr r ↦ elim (Bool-cases (t.id == gone)) [
    | inl q ↦ rw q (has_id-without gone id ts ne (ground (arith, r, h)))
    | inr q ↦ rw (q, r) (has_id-without gone id ts ne (ground (arith, r, h)))
  ]
]

-- A row that is found with an id, and whose object is deleted, is such a row.
pub find_where-IsGone :
    (delete : Str → Res (Unit {0})) (id : DomainId) (ts : List ArtifactDeletionTask)
    (row : ArtifactDeletionTask)
    → find_where (marked_task id) ts ≡ some row
    → delete row.storage_key ≡ ok tt
    → (row.id ≡ id) × IsGone delete id ts
unfolding find_where
find_where-IsGone delete id [] row h d = cc
find_where-IsGone delete id (t ∷ ts) row h d = elim (Bool-cases (marked_task id t)) [
  | inr q ↦
      let rest = find_where-IsGone delete id ts row (ground (arith, q, h)) d in (rest.0, inr rest.1)
  | inl q ↦ first (ground (arith, q, h)) (eq_of_== t.id id (ground (arith, q)))
]
  where
    first :
        t ≡ row
        → t.id ≡ id
        → (row.id ≡ id) × (((t.id ≡ id) × (delete t.storage_key ≡ ok tt)) ⊎ IsGone delete id ts)
    first e i = (
      ap (λ (x : ArtifactDeletionTask). x.id) (sym e) ∙ i,
      inl (i, ap (λ (x : ArtifactDeletionTask). delete x.storage_key) e ∙ d),
    )

-- How the first transaction ends.
abbrev Takes : Db → Res (Option ArtifactDeletionTask) × Db → Type 0
Takes db (err e, db') = db' ≡ db
Takes db (ok none, db') = db' ≡ db
Takes db (ok (some t), db') =
    (id : DomainId) × (row : ArtifactDeletionTask) × (t ≡ to_running row)
    × (find_where (marked_task id) db.deletions ≡ some row)
    × (db' ≡ put_tasks (update_where (marked_task id) to_running db.deletions) db)

take_task-Takes :
    (refuses : Query → Bool) (now : Time) (db : Db) → Takes db (take_task refuses now db)
unfolding take_task lock_next_task mark_running task_from_db transact deletion_status_valid
take_task-Takes refuses now db = elim (Bool-cases (refuses Query.lock_next_task)) [
  | inl a ↦ rw a refl
  | inr a ↦ elim (Option-cases (next_due now db.deletions)) [
    | inl n ↦ elim (Bool-cases (refuses Query.commit)) [
      | inl c ↦ rw (a, n, c) refl
      | inr c ↦ rw (a, n, c) refl
    ]
    | inr (t, n) ↦ elim (Bool-cases (deletion_status_valid t.status)) [
      | inr v ↦ rw (a, n, v) refl
      | inl v ↦ elim (Bool-cases (refuses Query.mark_running)) [
        | inl m ↦ rw (a, n, v, m) refl
        | inr m ↦ elim (Option-cases (find_where (marked_task t.id) db.deletions)) [
          | inl f ↦ rw (a, n, v, m, f) refl
          | inr (row, f) ↦ elim (Bool-cases (refuses Query.commit)) [
            | inl c ↦ rw (a, n, v, m, f, c) refl
            | inr c ↦ rw (a, n, v, m, f, c) (t.id, row, refl, f, refl)
          ]
        ]
      ]
    ]
  ]
]

-- How a retry ends: with the ids that the table had.
abbrev SameIds : Db → Db → Type 0
SameIds db db' = (id : DomainId) → has_id id db'.deletions ≡ has_id id db.deletions

put_off-SameIds :
    (refuses : Query → Bool) (task : ArtifactDeletionTask) (later : Time) (db : Db)
    → SameIds db (put_off refuses task later db).1
unfolding put_off retry_task transact
put_off-SameIds refuses task later db id = elim (Bool-cases (refuses Query.retry_task)) [
  | inl a ↦ rw a refl
  | inr a ↦ elim (Option-cases (find_where (retried_task task.id) db.deletions)) [
    | inl f ↦ rw (a, f) refl
    | inr (row, f) ↦ elim (Bool-cases (refuses Query.commit)) [
      | inl c ↦ rw (a, f, c) refl
      | inr c ↦
          rw (a, f, c)
            (has_id-update (retried_task task.id)
              (retried (later + deletion_retry_delay task.attempt)) (λ t. refl) id db.deletions)
    ]
  ]
]

-- How the last transaction ends: with nothing, or without the task.
pub finish_task-cases :
    (refuses : Query → Bool) (task : ArtifactDeletionTask) (db : Db)
    → ((e : Error) × (finish_task refuses task db ≡ (err e, db)))
      ⊎ ((db' : Db) × (finish_task refuses task db ≡ (ok tt, db'))
          × (db'.deletions ≡ without task.id db.deletions))
unfolding finish_task delete_task delete_artifact transact
finish_task-cases refuses task db = elim (Option-cases task.artifact_id) [
  | inl o ↦ elim (Bool-cases (refuses Query.delete_task)) [
    | inl a ↦ inl (failure, rw (o, a) refl)
    | inr a ↦ elim (Bool-cases (refuses Query.commit)) [
      | inl c ↦ inl (failure, rw (o, a, c) refl)
      | inr c ↦ inr ((finish_task refuses task db).1, rw (o, a, c) refl, rw (o, a, c) refl)
    ]
  ]
  | inr (id, o) ↦ elim (Bool-cases (refuses Query.delete_artifact)) [
    | inl b ↦ inl (failure, rw (o, b) refl)
    | inr b ↦ elim (Bool-cases (refuses Query.delete_task)) [
      | inl a ↦ inl (failure, rw (o, b, a) refl)
      | inr a ↦ elim (Bool-cases (refuses Query.commit)) [
        | inl c ↦ inl (failure, rw (o, b, a, c) refl)
        | inr c ↦ inr ((finish_task refuses task db).1, rw (o, b, a, c) refl, rw (o, b, a, c) refl)
      ]
    ]
  ]
]

differ : (a b : DomainId) → (a == b) ≡ false → a ≢ b
differ a b q e = let r = ==_refl a in cc

after_put_off-state : (x : Res (Unit {0}) × Db) → (after_put_off x).1 ≡ x.1
after_put_off-state (err e, db) = refl
after_put_off-state (ok done, db) = refl

module _ (first last retry : Query → Bool) (delete : Str → Res (Unit {0})) (now later : Time) where
  -- The work on a marked task keeps every id, unless it is that of the task and the object is
  -- deleted.
  after_delete-Keeps :
      (task : ArtifactDeletionTask) (ts : List ArtifactDeletionTask) (db : Db) (id : DomainId)
      → (delete task.storage_key ≡ ok tt → IsGone delete task.id ts)
      → has_id id db.deletions ≡ true
      → (has_id id
            (after_delete first last retry delete now later
              (delete task.storage_key)
              task
              db).1.deletions
          ≡ true)
        ⊎ IsGone delete id ts
  after_delete-Keeps task ts db id gone h = elim (Result-cases (delete task.storage_key)) [
    | inl (e, d) ↦
        rw (d, after_put_off-state (put_off retry task later db))
          (inl (put_off-SameIds retry task later db id ∙ h))
    | inr (_, d) ↦ elim (finish_task-cases last task db) [
      | inl (e, f) ↦ rw (d, f) (inl (put_off-SameIds retry task later db id ∙ h))
      | inr (db', f, w) ↦ elim (Bool-cases (task.id == id)) [
        | inl q ↦ inr (subst (λ x. IsGone delete x ts) (eq_of_== task.id id q) (gone d))
        | inr q ↦
            rw (d, f)
              (inl (
                ap (has_id id) w
                ∙ has_id-without task.id id db.deletions (λ e. differ task.id id q e) h))
      ]
    ]
  ]

  after_take-Keeps :
      (x : Res (Option ArtifactDeletionTask) × Db) (db : Db) (id : DomainId)
      → Takes db x
      → has_id id db.deletions ≡ true
      → (has_id id (after_take first last retry delete now later x).1.deletions ≡ true)
        ⊎ IsGone delete id db.deletions
  after_take-Keeps (err e, db') db id t h = inl (rw t h)
  after_take-Keeps (ok none, db') db id t h = inl (rw t h)
  after_take-Keeps (ok (some task), db') db id (key, row, same, found, next) h =
      after_delete-Keeps task db.deletions db' id
        (λ d.
          let gone =
            find_where-IsGone delete key db.deletions row found
              (ap (λ (x : ArtifactDeletionTask). delete x.storage_key) (sym same) ∙ d) in
          subst (λ x. IsGone delete x db.deletions)
            (sym (ap (λ (x : ArtifactDeletionTask). x.id) same ∙ gone.0)) gone.1)
        (ap (λ (x : Db). has_id id x.deletions) next
          ∙ has_id-update (marked_task key) to_running (λ t. refl) id db.deletions
          ∙ h)

  -- Whatever the statements and the storage do, and also where a transaction is refused, a task
  -- stays in the table, unless the object of a task with its id is deleted by the storage.
  pub process_next-Keeps :
      (db : Db) (id : DomainId)
      → has_id id db.deletions ≡ true
      → (has_id id (process_next first last retry delete now later db).1.deletions ≡ true)
        ⊎ IsGone delete id db.deletions
  unfolding process_next
  process_next-Keeps db id h =
      after_take-Keeps (take_task first now db) db id (take_task-Takes first now db) h

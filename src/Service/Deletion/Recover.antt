-- ===== src/Service/Deletion/Recover.antt =====
-- `RecoverArtifactDeletionTasks` of server/internal/service/artifact_cleanup.go.
use mite.Prelude.{◌≡◌, refl, ◌∙◌, sym, ap, Bool, none, List, [], ◌∷◌, Bool-cases, ok, inl, inr}
use mite.Domain.Errors.{Res}
use mite.Domain.Value.{DomainId}
use mite.Domain.Artifact.{ArtifactDeletionTask, eq_deletion_status}
use mite.Repository.{Db, Query, transact}
use mite.Repository.Deletions.{
  find_where, update_where, is_running, to_pending, reset_running_tasks,
}
use mite.Service.Deletion.{recover_tasks}
use mite.Service.Deletion.Queue.{has_id, has_id-update}

none_running :
    (ts : List ArtifactDeletionTask)
    → find_where is_running (update_where is_running to_pending ts) ≡ none
unfolding find_where update_where
none_running [] = refl
none_running (t ∷ ts) = elim (Bool-cases (is_running t)) [
  | inl q ↦ rw q (none_running ts)
  | inr q ↦ rw (q, q) (none_running ts)
]

-- A recovery that succeeds leaves no task in the state of a worker that was stopped, and keeps the
-- ids of the tasks.
pub recover_tasks-Keeps :
    (refuses : Query → Bool) (db db' : Db) (id : DomainId)
    → recover_tasks refuses db ≡ (ok tt, db')
    → (find_where is_running db'.deletions ≡ none)
      × (has_id id db'.deletions ≡ has_id id db.deletions)
unfolding recover_tasks reset_running_tasks transact
recover_tasks-Keeps refuses db db' id h = elim (Bool-cases (refuses Query.reset_tasks)) [
  | inl a ↦ let k = rw a at h in cc
  | inr a ↦ elim (Bool-cases (refuses Query.commit)) [
    | inl c ↦ let k = rw (a, c) at h in cc
    | inr c ↦
        let k = rw (a, c) at h in
        let next = sym (ap (λ (x : Res (Unit {0}) × Db). x.1.deletions) k) in
        (
          ap (find_where is_running) next ∙ none_running db.deletions,
          ap (has_id id) next ∙ has_id-update is_running to_pending (λ t. refl) id db.deletions,
        )
  ]
]

-- ===== src/Service/Session/Closing.antt =====
-- The transactions of `EndWithoutGuide` (server/internal/service/support_sessions.go) and `End`
-- (end_support_session.go) as steps of the abstract machine.
use mite.Prelude.{
  ℕ, ◌+◌, ◌≡◌, refl, inl, inr, Option, none, some, List, [], ◌∷◌, arith, Bool-cases, ok,
}
use mite.Text.{ascii}
use mite.Json.{session_body}
use mite.Domain.Errors.{Res}
use mite.Domain.Enums.{SupportSessionEndReason}
use mite.Domain.Event.{Event, support_session_updated}
use mite.Domain.Value.{DomainId}
use mite.Domain.Support.{SupportSession}
use mite.Domain.Idempotency.{IdempotencyScope}
use mite.Repository.{Db, Tx, Query, CleanupArtifact, lift, pure, ◌>>=◌, ◌>>◌}
use mite.Repository.Keys.{complete_key}
use mite.Repository.Sessions.{
  cleanup_artifacts, queue_deletion, end_without_guide, end_saved_guide, job_status, delete_job,
  delete_materials, delete_batch, delete_drafts,
}
use mite.Service.Env.{Env}
use mite.Service.Snapshot.{session_snapshot}
use mite.Service.Session.Common.{session_events}
use mite.Service.Session.End.{store_session, queue_all, queue_batch, job_status_of, when_set}
use mite.Service.Session.Rows.{Turns, IsConsistent}
use mite.Service.Session.Finish.{IsAfterCall, ended-Advances}
use mite.Service.Session.Frame.{Keeps, bind-Keeps, guarded-Keeps, complete_key-Keeps, Steps}

module _ (env : Env) where
  pub store_session-Keeps :
      (scope : IdempotencyScope) (session : SupportSession)
      → Keeps (store_session env scope session)
  unfolding store_session
  store_session-Keeps scope session =
      bind-Keeps
        (complete_key env.refuses scope 200 (session_body (session_snapshot session)) env.now)
        (λ _. lift (session_events env support_session_updated session) >>= λ events.
          pure (ok session, events))
        (complete_key-Keeps env scope 200 _ env.now)
        λ _.
          bind-Keeps (lift (session_events env support_session_updated session))
            (λ events. pure (ok session, events)) (λ db. (refl, refl)) λ events db. (refl, refl)

  queue_deletion-Keeps :
      (task_id : DomainId) (a : CleanupArtifact)
      → Keeps (queue_deletion env.refuses task_id a env.now)
  unfolding queue_deletion
  queue_deletion-Keeps task_id a db = ground arith

  queue_all-Keeps : (k : ℕ) (artifacts : List CleanupArtifact) → Keeps (queue_all env k artifacts)
  unfolding queue_all
  queue_all-Keeps k [] = λ db. (refl, refl)
  queue_all-Keeps k (a ∷ artifacts) =
      bind-Keeps (lift (env.new_id (ascii "deletion") k))
        (λ task_id. queue_deletion env.refuses task_id a env.now >> queue_all env (k + 1) artifacts)
        (λ db. (refl, refl))
        λ task_id.
          bind-Keeps (queue_deletion env.refuses task_id a env.now)
            (λ _. queue_all env (k + 1) artifacts) (queue_deletion-Keeps task_id a)
            λ _. queue_all-Keeps (k + 1) artifacts

  pub queue_batch-Keeps : (o : Option DomainId) → Keeps (queue_batch env o)
  unfolding queue_batch cleanup_artifacts
  queue_batch-Keeps none = λ db. (refl, refl)
  queue_batch-Keeps (some id) =
      bind-Keeps (cleanup_artifacts env.refuses id) (queue_all env 0)
        (λ db.
          guarded-Keeps (env.refuses Query.cleanup_artifacts) (pure (db.materials id))
            (λ d. (refl, refl)) db)
        (queue_all-Keeps 0)

  pub job_status_of-Keeps : (o : Option DomainId) → Keeps (job_status_of env o)
  unfolding job_status_of job_status
  job_status_of-Keeps o db = ground arith

  when_set-Keeps :
      (o : Option DomainId) (f : DomainId → Tx (Unit {0}))
      → ((id : DomainId) → Keeps (f id))
      → Keeps (when_set o f)
  when_set-Keeps none f k = λ db. (refl, refl)
  when_set-Keeps (some id) f k = k id

  -- The deletions after the session has ended.
  abbrev pub clean_up :
      SupportSession → IdempotencyScope → SupportSession → Tx (Res SupportSession × List Event)
  clean_up locked scope updated =
      when_set locked.guide_generation_job_id (delete_job env.refuses)
      >> (when_set locked.guide_material_batch_id (delete_materials env.refuses)
          >> (when_set locked.guide_material_batch_id (delete_batch env.refuses)
              >> (when_set locked.guide_draft_id (λ _. delete_drafts env.refuses locked.id)
                  >> store_session env scope updated)))

  pub clean_up-Keeps :
      (locked : SupportSession) (scope : IdempotencyScope) (updated : SupportSession)
      → Keeps (clean_up locked scope updated)
  unfolding delete_job delete_materials delete_batch delete_drafts
  clean_up-Keeps locked scope updated =
      bind-Keeps (when_set locked.guide_generation_job_id (delete_job env.refuses)) _
        (when_set-Keeps _ _ λ id. guarded-Keeps (env.refuses Query.delete_job) _ λ db. (refl, refl))
        λ _.
          bind-Keeps (when_set locked.guide_material_batch_id (delete_materials env.refuses)) _
            (when_set-Keeps _ _
              λ id. guarded-Keeps (env.refuses Query.delete_materials) _ λ db. (refl, refl))
            λ _.
              bind-Keeps (when_set locked.guide_material_batch_id (delete_batch env.refuses)) _
                (when_set-Keeps _ _
                  λ id. guarded-Keeps (env.refuses Query.delete_batch) _ λ db. (refl, refl))
                λ _.
                  bind-Keeps
                    (when_set locked.guide_draft_id (λ _. delete_drafts env.refuses locked.id)) _
                    (when_set-Keeps _ _
                      λ id. guarded-Keeps (env.refuses Query.delete_drafts) _ λ db. (refl, refl))
                    λ _. store_session-Keeps scope updated

  pub end_without_guide-Steps :
      (s : SupportSession) (reason : SupportSessionEndReason) (db : Db)
      → IsConsistent db.requests db.sessions
      → db.sessions s.id ≡ some s
      → IsAfterCall s
      → Steps Turns db (end_without_guide env.refuses s.id reason env.now db)
  unfolding end_without_guide
  end_without_guide-Steps s reason db c held after =
      elim (Bool-cases (env.refuses Query.end_without_guide)) [
        | inl f ↦ rw f tt
        | inr f ↦
            rw (f, held)
              (ended-Advances db.requests db.sessions s _ c held after refl refl refl refl refl refl
                refl)
      ]

  pub end_saved_guide-Steps :
      (s : SupportSession) (db : Db)
      → IsConsistent db.requests db.sessions
      → db.sessions s.id ≡ some s
      → IsAfterCall s
      → Steps Turns db (end_saved_guide env.refuses s.id env.now db)
  unfolding end_saved_guide
  end_saved_guide-Steps s db c held after = elim (Bool-cases (env.refuses Query.end_saved_guide)) [
    | inl f ↦ rw f tt
    | inr f ↦
        rw (f, held)
          (ended-Advances db.requests db.sessions s _ c held after refl refl refl refl refl refl
            refl)
  ]

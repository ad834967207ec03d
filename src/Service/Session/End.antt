-- ===== src/Service/Session/End.antt =====
-- `EndWithoutGuide` of server/internal/service/support_sessions.go and `End` of
-- end_support_session.go: the calls that end a session outside a review.
use mite.Prelude.{
  ℕ, ◌+◌, Bool, true, false, ◌&&◌, ◌||◌, not, Option, none, some, List, [], ◌∷◌, ◌++◌,
  if◌then◌else◌, ltb, ◌==◌, ◌!=◌, Result, ok, err,
}
use mite.Prelude
use mite.Text.{Str, ascii}
use mite.Json.{session_body}
use mite.Domain.Errors.{Error, Res, fail, validation_error, forbidden}
use mite.Domain.Enums.{
  Role, SupportSessionEndReason, GuideGenerationJobStatus, eq_role, eq_support_session_end_reason,
}
use mite.Domain.Value.{DomainId}
use mite.Domain.User.{Actor, authorize}
use mite.Domain.Event.{Event, support_session_updated}
use mite.Domain.Support.{
  SupportSession, validate_expected_revision, validate_end_without_guide, validate_end_saved,
}
use mite.Domain.Idempotency.{IdempotencyScope}
use mite.Repository.{Db, Tx, CleanupArtifact, pure, lift, ◌>>=◌, ◌>>◌}
use mite.Repository.Sessions.{
  lock_request, lock_session, job_status, cleanup_artifacts, queue_deletion, end_without_guide,
  end_saved_guide, delete_job, delete_materials, delete_batch, delete_drafts,
}
use mite.Repository.Keys.{complete_key}
use mite.Service.Env.{Env, Outcome, end_without_guide_payload, end_payload}
use mite.Service.Snapshot.{session_snapshot}
use mite.Service.Session.Common.{
  session_pair, authorize_actor_role, decode_session_replay, prepared, session_events, conclude,
}
use mite.Service.Session.Held.{begin_session_key, checked, answered}
use mite.Service.Session.Pair.{Prepared, prepare_session_mutation, session_scope}

-- `if pointer != nil { f(*pointer) }`.
abbrev pub when_set : Option DomainId → (DomainId → Tx (Unit {0})) → Tx (Unit {0})
when_set none f = pure tt
when_set (some id) f = f id

module _ (env : Env) where
  unfoldable pub store_session :
      IdempotencyScope → SupportSession → Tx (Res SupportSession × List Event)
  unfolding session_events
  store_session scope session = do
    complete_key env.refuses scope 200 (session_body (session_snapshot session)) env.now
    events ← lift (session_events env support_session_updated session)
    pure (ok session, events)

  -- The loop over the artifacts of the batch; the k-th takes the k-th id of `deletion`.
  unfoldable pub queue_all : ℕ → List CleanupArtifact → Tx (Unit {0})
  queue_all k [] = pure tt
  queue_all k (a ∷ artifacts) = do
    task_id ← lift (env.new_id (ascii "deletion") k)
    queue_deletion env.refuses task_id a env.now
    queue_all (k + 1) artifacts

  unfoldable pub queue_batch : Option DomainId → Tx (Unit {0})
  unfolding queue_all
  queue_batch none = pure tt
  queue_batch (some batch_id) = do
    artifacts ← cleanup_artifacts env.refuses batch_id
    queue_all 0 artifacts

  unfoldable pub job_status_of : Option DomainId → Tx (Option GuideGenerationJobStatus)
  job_status_of none = pure none
  job_status_of (some id) = do status ← job_status env.refuses id; pure (some status)

  -- The writes of `EndWithoutGuide`: the images are queued for deletion, the session ends, and the
  -- rows of its guide go.
  unfoldable pub end_and_clean :
      SupportSession
      → SupportSessionEndReason
      → IdempotencyScope
      → Tx (Res SupportSession × List Event)
  unfolding queue_batch store_session
  end_and_clean locked reason scope = do
    queue_batch locked.guide_material_batch_id
    updated ← end_without_guide env.refuses locked.id reason env.now
    when_set locked.guide_generation_job_id (delete_job env.refuses)
    when_set locked.guide_material_batch_id (delete_materials env.refuses)
    when_set locked.guide_material_batch_id (delete_batch env.refuses)
    when_set locked.guide_draft_id (λ _. delete_drafts env.refuses locked.id)
    store_session scope updated

  unfoldable pub end_checked :
      Actor
      → ℕ
      → SupportSessionEndReason
      → IdempotencyScope
      → Str
      → SupportSession
      → Tx (Res SupportSession × List Event)
  unfolding job_status_of end_and_clean
  end_checked actor expected_revision reason scope request_id locked =
      checked env scope request_id (validate_expected_revision locked.revision expected_revision)
        λ _. job_status_of locked.guide_generation_job_id >>= λ status.
          checked env scope request_id (validate_end_without_guide locked actor reason status)
            λ _. end_and_clean locked reason scope

  -- The function that `EndWithoutGuide` runs in its transaction.
  unfoldable pub end_work :
      Actor
      → SupportSession
      → DomainId
      → ℕ
      → SupportSessionEndReason
      → IdempotencyScope
      → Str
      → Str
      → Tx (Res SupportSession × List Event)
  unfolding end_checked
  end_work actor session id expected_revision reason scope hash request_id = do
    _ ← lock_request env.refuses session.support_request_id
    locked ← lock_session env.refuses id
    lift (authorize (session_pair locked) actor (Role.user ∷ Role.family ∷ []))
    replay ← begin_session_key env scope hash
    answered env (λ r. decode_session_replay r 200)
        (end_checked actor expected_revision reason scope request_id locked) replay

  -- The reasons that the arguments of `EndWithoutGuide` may give.
  unfoldable pub check_reason : Actor → SupportSessionEndReason → Res (Unit {0})
  check_reason actor reason =
      if reason != SupportSessionEndReason.guide_cancelled
        && reason != SupportSessionEndReason.no_materials
      then fail validation_error
      else if (actor.role == Role.user && reason != SupportSessionEndReason.no_materials)
          || (actor.role == Role.family && reason != SupportSessionEndReason.guide_cancelled)
      then fail forbidden
      else ok tt

  -- The checks of `EndWithoutGuide` before its transaction.
  unfoldable pub prepare_end : Db → Actor → Str → ℕ → SupportSessionEndReason → Str → Res Prepared
  unfolding authorize_actor_role check_reason prepare_session_mutation
  prepare_end preloaded actor raw_session_id expected_revision reason raw_key =
      Prelude.◌>>=◌ (authorize_actor_role actor (Role.user ∷ Role.family ∷ [])) λ _.
        Prelude.◌>>=◌ (Prelude.fail_if (ltb expected_revision 1) (Error.domain validation_error))
          λ _. Prelude.◌>>=◌ (check_reason actor reason) λ _.
            prepare_session_mutation env preloaded actor raw_session_id raw_key
              (end_without_guide_payload expected_revision reason) (Role.user ∷ Role.family ∷ [])

  unfoldable pub end_session_without_guide :
      Db → Actor → Str → ℕ → SupportSessionEndReason → Str → Str → Db → Outcome SupportSession
  unfolding prepare_end end_work conclude
  end_session_without_guide preloaded actor raw_session_id expected_revision reason raw_key
        request_id db =
      prepared env (prepare_end preloaded actor raw_session_id expected_revision reason raw_key)
        (λ p. conclude env (
          end_work actor p.session p.id expected_revision reason
            (session_scope env actor p (ascii "/end-without-guide")) p.hash request_id))
        db

  unfoldable pub end_saved_checked :
      DomainId → ℕ → IdempotencyScope → Str → SupportSession → Tx (Res SupportSession × List Event)
  unfolding store_session
  end_saved_checked id expected_revision scope request_id locked =
      checked env scope request_id (validate_expected_revision locked.revision expected_revision)
        λ _.
          checked env scope request_id (validate_end_saved locked)
            λ _. end_saved_guide env.refuses id env.now >>= store_session scope

  -- The function that `End` runs in its transaction.
  unfoldable pub end_saved_work :
      Actor
      → SupportSession
      → DomainId
      → ℕ
      → IdempotencyScope
      → Str
      → Str
      → Tx (Res SupportSession × List Event)
  unfolding end_saved_checked
  end_saved_work actor session id expected_revision scope hash request_id = do
    _ ← lock_request env.refuses session.support_request_id
    locked ← lock_session env.refuses id
    lift (authorize (session_pair locked) actor (Role.family ∷ []))
    replay ← begin_session_key env scope hash
    answered env (λ r. decode_session_replay r 200)
        (end_saved_checked id expected_revision scope request_id locked) replay

  -- The checks of `End` before its transaction.
  unfoldable pub prepare_end_saved : Db → Actor → Str → ℕ → Str → Res Prepared
  unfolding authorize_actor_role prepare_session_mutation
  prepare_end_saved preloaded actor raw_session_id expected_revision raw_key =
      Prelude.◌>>=◌ (authorize_actor_role actor (Role.family ∷ [])) λ _.
        Prelude.◌>>=◌ (Prelude.fail_if (ltb expected_revision 1) (Error.domain validation_error))
          λ _.
            prepare_session_mutation env preloaded actor raw_session_id raw_key
              (end_payload expected_revision) (Role.family ∷ [])

  unfoldable pub end_saved_session : Db → Actor → Str → ℕ → Str → Str → Db → Outcome SupportSession
  unfolding prepare_end_saved end_saved_work conclude
  end_saved_session preloaded actor raw_session_id expected_revision raw_key request_id db =
      prepared env (prepare_end_saved preloaded actor raw_session_id expected_revision raw_key)
        (λ p. conclude env (
          end_saved_work actor p.session p.id expected_revision
            (session_scope env actor p (ascii "/end")) p.hash request_id))
        db

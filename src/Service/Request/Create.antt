-- ===== src/Service/Request/Create.antt =====
-- `CreateSupportRequest` of server/internal/service/artifact_support.go.
use mite.Prelude.{
  ℕ, Bool, true, false, not, Option, none, some, List, [], ◌∷◌, ◌==◌, ◌!=◌, points_to, Result, ok,
  err, fail_if,
}
use mite.Prelude
use mite.Text.{Str, ascii, eq_str, is_blank}
use mite.Domain.Errors.{
  ErrorCode, Res, domain, fail, internal_error, forbidden, validation_error, not_found,
  duplicate_active_request,
}
use mite.Domain.Enums.{Role, eq_role, ArtifactPurpose, eq_artifact_purpose, SupportRequestStatus}
use mite.Domain.Value.{DomainId, new_id}
use mite.Domain.User.{UserPair, Actor, authorize}
use mite.Domain.Artifact.{Artifact}
use mite.Domain.Request.{validate_comment}
use mite.Domain.Event.{EventType}
use mite.Domain.Support.{Time, SupportRequest}
use mite.Domain.Idempotency.{IdempotencyScope, new_idempotency_key}
use mite.Repository.{Db, Tx, Query, pure, lift, transact, ◌>>=◌}
use mite.Repository.Requests.{
  lock_user, find_pair, has_active_request, has_open_session, lock_artifact, has_deletion_task,
  insert_request,
}
use mite.Service.Env.{Env, Outcome, request_payload}
use mite.Service.Deletion.{normalize_repository_error}
use mite.Service.Idempotency.{Evaluation}
use mite.Service.Session.Common.{idempotency_scope}
use mite.Service.Request.Common.{
  IdempotentSupportRequestResult, Ended, require_role, request_replay_result, or_fail,
  report_request, acquire_idempotency, complete_business_error, complete_request,
}

-- `CreateSupportRequestInput`.
pub record CreateSupportRequestInput : Type 0 where
  pub initial_screenshot_artifact_id : DomainId
  pub comment : Str
  pub request_id : Str

unfoldable pub or_internal : Res DomainId → Res DomainId
or_internal (err e) = fail internal_error
or_internal (ok id) = ok id

-- `later` is the clock where the code reads it again, and `ids` are the keys that the tables may have.
module _ (env : Env) (later : Time) (ids : List DomainId) where
  abbrev pub new_request : DomainId → UserPair → Artifact → Str → SupportRequest
  new_request id pair artifact comment = record {
    id = id;
    user_id = pair.user_id;
    family_id = pair.family_id;
    initial_screenshot_artifact_id = artifact.id;
    comment = comment;
    status = SupportRequestStatus.pending;
    support_session_id = none;
    guide_context = none;
    acknowledged_at = none;
    acknowledgement_kind = none;
    estimated_support_at = none;
    created_at = env.now;
    updated_at = env.now;
    revision = 1;
  }

  module _ (actor : Actor) (input : CreateSupportRequestInput) (scope : IdempotencyScope)
      (id : DomainId) where
    abbrev pub stored : ErrorCode → Tx Ended
    stored code = complete_business_error env scope input.request_id code later

    -- A refusal is stored, and ends the work.
    abbrev pub refuse_if : Bool → ErrorCode → Tx Ended → Tx Ended
    refuse_if true code k = stored code
    refuse_if false code k = k

    unfoldable pub insert_new : UserPair → Artifact → Tx Ended
    unfolding insert_request complete_request
    insert_new pair artifact = do
      request ← insert_request env.refuses (new_request id pair artifact input.comment)
      complete_request env scope 201 later request

    unfoldable pub use_artifact : UserPair → Option Artifact → Tx Ended
    unfolding insert_new has_deletion_task complete_business_error
    use_artifact pair none = stored not_found
    use_artifact pair (some artifact) = do
      reserved ← has_deletion_task env.refuses artifact.storage_key
      refuse_if reserved not_found (
          lift (fail_if (artifact.owner_user_id != pair.user_id) (domain forbidden)) >>= λ _.
          refuse_if (artifact.purpose != ArtifactPurpose.request_screenshot) validation_error
            (insert_new pair artifact))

    unfoldable pub use_pair : UserPair → Tx Ended
    unfolding use_artifact has_active_request has_open_session lock_artifact
    use_pair pair = do
      active ← has_active_request env.refuses ids pair.user_id
      refuse_if active duplicate_active_request (
          has_open_session env.refuses ids pair.user_id >>= λ session_open.
          refuse_if session_open duplicate_active_request
            (lock_artifact env.refuses input.initial_screenshot_artifact_id >>= use_artifact pair))

    unfoldable pub create_fresh : Tx Ended
    unfolding use_pair lock_user find_pair
    create_fresh = do
      role ← lock_user env.refuses actor.id
      _ ← lift (fail_if (not (points_to role Role.user)) (domain forbidden))
      row ← find_pair env.refuses actor.id
      pair ← lift (or_fail row forbidden)
      _ ← lift (authorize pair actor (Role.user ∷ []))
      use_pair pair

    abbrev pub on_claim : Evaluation → Tx Ended
    on_claim (Evaluation.replay claim) =
        lift (request_replay_result claim) >>= λ result. pure (result, none)
    on_claim Evaluation.start = create_fresh
    on_claim (Evaluation.take_over claim) = create_fresh

    -- The transaction of `CreateSupportRequest`.
    unfoldable pub create_work : Str → Tx Ended
    unfolding acquire_idempotency create_fresh
    create_work hash = acquire_idempotency env scope hash >>= on_claim

  -- The checks before the transaction, with the key and the id of the request.
  unfoldable pub prepare_request : Actor → Str → CreateSupportRequestInput → Res (Str × DomainId)
  unfolding require_role validate_comment or_internal
  prepare_request actor raw_key input = Prelude.◌>>=◌ (require_role actor Role.user) λ _.
      Prelude.◌>>=◌ (new_id input.initial_screenshot_artifact_id) λ _.
        Prelude.◌>>=◌ (validate_comment input.comment) λ _.
          Prelude.◌>>=◌ (fail_if (is_blank input.request_id) (domain internal_error)) λ _.
            Prelude.◌>>=◌ (new_idempotency_key raw_key)
              λ key. Prelude.◌>>=◌ (or_internal (env.new_id (ascii "request") 0)) λ id. ok (key, id)

  unfoldable pub create_support_request :
      Actor → Str → CreateSupportRequestInput → Db → Outcome IdempotentSupportRequestResult
  unfolding prepare_request create_work normalize_repository_error
  create_support_request actor raw_key input db = elim (prepare_request actor raw_key input) [
    | err e ↦ (err e, db, [])
    | ok (key, id) ↦
        report_request (env.new_id (ascii "evt") 0) EventType.support_request_created
          (λ r. r.created_at)
          (transact (env.refuses Query.commit)
            (create_work actor input (idempotency_scope actor (ascii "/v1/support-requests") key) id
              (env.digest (request_payload input.initial_screenshot_artifact_id input.comment)))
            db)
  ]

-- ===== src/Service/Request/Writes/Create.antt =====
-- What `CreateSupportRequest` of server/internal/service/artifact_support.go writes.
use mite.Prelude.{
  ◌≡◌, refl, ◌∙◌, inl, inr, Bool, true, false, not, Option, none, some, List, [], ◌∷◌, Option-cases,
  ok-injective, ◌!=◌, eq_nat, points_to,
}
use mite.Text.{Str, eq_str}
use mite.Domain.Errors.{
  ErrorCode, domain, forbidden, not_found, duplicate_active_request, validation_error,
}
use mite.Domain.Enums.{
  Role, eq_role, eq_support_request_status, ArtifactPurpose, eq_artifact_purpose,
}
use mite.Domain.Value.{DomainId}
use mite.Domain.User.{UserPair, Actor, authorize}
use mite.Domain.Artifact.{Artifact}
use mite.Domain.Support.{Time}
use mite.Domain.Request.{request_validate}
use mite.Domain.Idempotency.{IdempotencyScope}
use mite.Repository.{Db, Tx, Query}
use mite.Repository.Leaves.{
  Leaves, Leaves-check, Leaves-state, Leaves-pure, Leaves-go_on, Leaves-lift, Leaves-ask,
  Leaves-guarded,
}
use mite.Repository.Keys.Only.{Keys, Leaves-keys}
use mite.Repository.Requests.{
  active_of, exists_row, inserted_request, written_request, lock_user, find_pair,
  has_active_request, has_open_session, lock_artifact, has_deletion_task, insert_request,
}
use mite.Service.Env.{Env}
use mite.Service.Idempotency.{Evaluation}
use mite.Service.Request.Common.{
  Ended, or_fail, acquire_idempotency, complete_business_error, complete_request,
  request_replay_result,
}
use mite.Service.Request.Create.{
  CreateSupportRequestInput, new_request, refuse_if, insert_new, use_artifact, use_pair,
  create_fresh, on_claim, create_work,
}
use mite.Service.Request.Held.{
  acquire_idempotency-OnlyKeys, complete_business_error-OnlyKeys, complete_request-OnlyKeys,
}
use mite.Service.Request.Rows.{Changes}
use mite.Domain.Guide.{contains}
use mite.Service.Request.Writes.{kept}

module _ (env : Env) (later : Time) (ids : List DomainId) (actor : Actor)
    (input : CreateSupportRequestInput) (scope : IdempotencyScope) (id : DomainId)
    (named : contains ids id ≡ true) where
  stored-Changes :
      (code : ErrorCode) (db : Db)
      → Leaves
          (λ _ d. Changes ids db d)
          (complete_business_error env scope input.request_id code later db)
  stored-Changes code db =
      Leaves-state (Changes ids db)
        (complete_business_error env scope input.request_id code later db)
        (kept ids db db _ (refl, inl refl)
          (complete_business_error-OnlyKeys env scope input.request_id code later db))

  refuse_if-Changes :
      (b : Bool) (code : ErrorCode) (k : Tx Ended) (db : Db)
      → (b ≡ false → Leaves (λ _ d. Changes ids db d) (k db))
      → Leaves (λ _ d. Changes ids db d) (refuse_if env later ids actor input scope id b code k db)
  refuse_if-Changes true code k db step = stored-Changes code db
  refuse_if-Changes false code k db step = step refl

  module _ (pair : UserPair) (db : Db)
      (quiet : exists_row (λ j. active_of pair.user_id (db.requests j)) ids ≡ false) where
    inserted-Changes :
        (artifact : Artifact)
        → Leaves
            (λ _ d. Changes ids db d)
            (insert_request env.refuses
              (new_request env later ids id pair artifact input.comment)
              db)
    unfolding insert_request
    inserted-Changes artifact =
        let r = new_request env later ids id pair artifact input.comment in
        Leaves-lift _ (request_validate r) _ db λ _ _.
          Leaves-check _ (env.refuses Query.unique_active) (domain duplicate_active_request) _ db
            λ _.
              Leaves-guarded _ (env.refuses Query.insert_request) _ db
                (elim (Option-cases (db.requests id)) [
                  | inr (old, at) ↦ rw at (Leaves-state (Changes ids db) _ (refl, inl refl))
                  | inl free ↦ rw free (
                      Leaves-state (Changes ids db) (written_request id (inserted_request r) db) (
                        refl,
                        inr (inl (inserted_request r, free, named, refl, refl, quiet, refl)),
                      ))
                ])

    insert_new-Changes :
        (artifact : Artifact)
        → Leaves
            (λ _ d. Changes ids db d)
            (insert_new env later ids actor input scope id pair artifact db)
    unfolding insert_new
    insert_new-Changes artifact =
        Leaves-go_on (λ _ d. Changes ids db d) (λ _ d. Changes ids db d)
          (insert_request env.refuses (new_request env later ids id pair artifact input.comment) db)
          (complete_request env scope 201 later) (inserted-Changes artifact)
          λ r d c.
            Leaves-state (Changes ids db) (complete_request env scope 201 later r d)
              (kept ids db d _ c (complete_request-OnlyKeys env scope 201 later r d))

    use_artifact-Changes :
        (o : Option Artifact)
        → Leaves
            (λ _ d. Changes ids db d)
            (use_artifact env later ids actor input scope id pair o db)
    unfolding use_artifact has_deletion_task
    use_artifact-Changes none = stored-Changes not_found db
    use_artifact-Changes (some a) =
        Leaves-ask _ (env.refuses Query.has_deletion_task) _ _ db λ reserved _.
          refuse_if-Changes reserved not_found _ db λ _.
            Leaves-check _ (a.owner_user_id != pair.user_id) (domain forbidden) _ db λ _.
              refuse_if-Changes (a.purpose != ArtifactPurpose.request_screenshot) validation_error _
                db λ _. insert_new-Changes a

  use_pair-Changes :
      (pair : UserPair) (db : Db)
      → Leaves (λ _ d. Changes ids db d) (use_pair env later ids actor input scope id pair db)
  unfolding use_pair has_active_request has_open_session lock_artifact
  use_pair-Changes pair db = Leaves-ask _ (env.refuses Query.has_active_request) _ _ db λ active is.
      refuse_if-Changes active duplicate_active_request _ db λ quiet.
        Leaves-ask _ (env.refuses Query.has_open_session) _ _ db λ session_open _.
          refuse_if-Changes session_open duplicate_active_request _ db λ _.
            Leaves-ask _ (env.refuses Query.lock_artifact) _ _ db λ o _.
              use_artifact-Changes pair db
                (let k =
                    ok-injective (exists_row (λ j. active_of pair.user_id (db.requests j)) ids)
                      active is in
                  k ∙ quiet)
                o

  create_fresh-Changes :
      (db : Db)
      → Leaves (λ _ d. Changes ids db d) (create_fresh env later ids actor input scope id db)
  unfolding create_fresh lock_user find_pair
  create_fresh-Changes db = Leaves-ask _ (env.refuses Query.lock_user) _ _ db λ role _.
      Leaves-check _ (not (points_to role Role.user)) (domain forbidden) _ db λ _.
        Leaves-ask _ (env.refuses Query.find_pair) _ _ db λ row _.
          Leaves-lift _ (or_fail row forbidden) _ db λ pair _.
            Leaves-lift _ (authorize pair actor (Role.user ∷ [])) _ db
              λ _ _. use_pair-Changes pair db

  pub create_work-Changes :
      (hash : Str) (db : Db)
      → Leaves (λ _ d. Changes ids db d) (create_work env later ids actor input scope id hash db)
  unfolding create_work
  create_work-Changes hash db =
      Leaves-keys (λ _ d. Changes ids db d) (acquire_idempotency env scope hash)
        (on_claim env later ids actor input scope id) db
        (acquire_idempotency-OnlyKeys env scope hash) λ claim keys. claimed claim keys
    where
      claimed :
          (claim : Evaluation) (keys : Keys)
          → Leaves
              (λ _ d. Changes ids db d)
              (on_claim env later ids actor input scope id claim (record db { keys = keys }))
      claimed Evaluation.start keys = create_fresh-Changes (record db { keys = keys })
      claimed (Evaluation.take_over r) keys = create_fresh-Changes (record db { keys = keys })
      claimed (Evaluation.replay r) keys =
          Leaves-lift _ (request_replay_result r) _ (record db { keys = keys })
            λ result _. Leaves-pure _ (result, none) (record db { keys = keys }) (refl, inl refl)

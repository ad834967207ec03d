-- ===== src/Service/Request/Writes.antt =====
-- What `UpdateSupportRequestAcknowledgement` and `CancelSupportRequest` of
-- server/internal/service/artifact_support.go write.
pub mod Create
use mite.Prelude.{
  ℕ, ◌+◌, ◌≡◌, refl, sym, ap, ◌∙◌, ◌⊎◌, inl, inr, Bool, true, false, ◌||◌, not, Option, none, some,
  List, [], ◌∷◌, Bool-cases, Option-cases, Result-cases, ok-injective, ok, err, ◌==◌, ◌!=◌,
  eq_of_==, eq_nat, write, fail_if, is_nil, points_to, arith,
}
use mite.Prelude
use mite.Text.{Str, eq_str}
use mite.Domain.Errors.{
  Error, Res, ErrorCode, domain, forbidden, invalid_state, revision_conflict, not_found,
  duplicate_active_request, validation_error,
}
use mite.Domain.Enums.{
  Role, eq_role, SupportRequestStatus, eq_support_request_status, ArtifactPurpose,
  eq_artifact_purpose,
}
use mite.Domain.Value.{DomainId}
use mite.Domain.User.{UserPair, Actor, authorize}
use mite.Domain.Artifact.{Artifact}
use mite.Domain.Support.{Time, SupportRequest}
use mite.Domain.Request.{request_validate}
use mite.Domain.Idempotency.{IdempotencyScope, IdempotencyRecord}
use mite.Repository.{Db, Tx, Query, go_on, lift, pure, guarded, ◌>>=◌, ◌>>◌}
use mite.Repository.Leaves.{
  asks, Leaves, Leaves-check, Leaves-state, Leaves-transact, Leaves-pure, Leaves-go_on, Leaves-lift,
  Leaves-ask, Leaves-guarded,
}
use mite.Repository.Keys.Only.{Keys, OnlyKeys, Leaves-keys}
use mite.Repository.Requests.{
  active_of, open_of, exists_row, has_task, inserted_request, acknowledged_request,
  cancelled_request, written_request, insert_at, update_at, lock_user, find_pair,
  has_active_request, has_open_session, lock_artifact, has_deletion_task, lock_request_row,
  insert_request, acknowledge_request, cancel_request, request_from_db, artifact_from_db,
  request_row,
}
use mite.Service.Env.{Env}
use mite.Service.Idempotency.{Evaluation}
use mite.Service.Request.Common.{
  Ended, or_fail, acquire_idempotency, complete_business_error, complete_request,
  request_replay_result,
}
use mite.Service.Request.Create.{
  CreateSupportRequestInput, new_request, refuse_if, insert_new, use_artifact, use_pair,
  create_fresh, on_claim, create_work,
}
use mite.Service.Request.Change.{
  UpdateSupportRequestAcknowledgementInput, owns, cancel_replay, lock_pending, acknowledge_work,
  cancel_fresh, on_cancel_claim, cancel_work,
}
use mite.Service.Request.Held.{
  acquire_idempotency-OnlyKeys, complete_business_error-OnlyKeys, complete_request-OnlyKeys,
}
use mite.Service.Request.Rows.{Added, Revised, Changes}

stored_row :
    (o : Option SupportRequest) (row : Option SupportRequest) → request_row o ≡ ok row → o ≡ row
unfolding request_row request_from_db
stored_row none row h = cc
stored_row (some r) row h = elim (Result-cases (request_validate r)) [
  | inl (e, v) ↦ let k = rw v at h in cc
  | inr (_, v) ↦ let k = rw v at h in cc
]

found_row :
    (row : Option SupportRequest) (r : SupportRequest) → or_fail row not_found ≡ ok r → row ≡ some r
found_row none r h = cc
found_row (some x) r h = cc

is_pending :
    (s : SupportRequestStatus) (o : Option DomainId)
    → (s != SupportRequestStatus.pending || not (is_nil o)) ≡ false
    → (s ≡ SupportRequestStatus.pending) × (o ≡ none)
is_pending s none h = (ground arith, refl)
is_pending s (some x) h = (ground arith, ground arith)

-- A request that is locked is its row, pending and without a session.
abbrev pub IsLocked : DomainId → Db → SupportRequest → Db → Type 0
IsLocked id db r d =
    (d ≡ db)
    × (db.requests id ≡ some r)
    × (r.status ≡ SupportRequestStatus.pending)
    × (r.support_session_id ≡ none)

module _ (env : Env) (actor : Actor) (id : DomainId) (expected : ℕ) where
  lock_pending-IsLocked :
      (db : Db) → Leaves (IsLocked id db) (lock_pending env actor id expected db)
  unfolding lock_pending lock_request_row find_pair
  lock_pending-IsLocked db =
      Leaves-ask _ (env.refuses Query.lock_request) (λ db. request_row (db.requests id)) _ db
        λ row at. Leaves-lift _ (or_fail row not_found) _ db λ r is.
          Leaves-ask _ (env.refuses Query.find_pair) (λ db. ok (db.pairs actor.id)) _ db
            λ pair _. Leaves-check _ (not (owns pair r)) (domain forbidden) _ db λ _.
              Leaves-check _
                (r.status != SupportRequestStatus.pending || not (is_nil r.support_session_id))
                (domain invalid_state) _ db
                λ free. Leaves-check _ (r.revision != expected) (domain revision_conflict) _ db λ _.
                  Leaves-pure (IsLocked id db) r db (
                    refl,
                    stored_row (db.requests id) row at ∙ found_row row r is,
                    (is_pending r.status r.support_session_id free).0,
                    (is_pending r.status r.support_session_id free).1,
                  )

pub kept :
    (ids : List DomainId) (db d d' : Db) → Changes ids db d → OnlyKeys d d' → Changes ids db d'
kept ids db d d' c (keys, e) = rw e c

-- The revised row of a locked request.
module _ (ids : List DomainId) (db : Db) (id : DomainId) (r r' : SupportRequest)
    (locked : IsLocked id db r db) (filed : r.id ≡ id) where
  revised :
      r'.id ≡ r.id
      → r'.support_session_id ≡ r.support_session_id
      → r'.user_id ≡ r.user_id
      → r'.revision ≡ r.revision + 1
      → (r'.status ≡ SupportRequestStatus.pending) ⊎ (r'.status ≡ SupportRequestStatus.cancelled)
      → Changes ids db (record db { requests = write db.requests r.id (some r') })
  revised same lone owner revision status = (
    refl,
    inr (
        inr (
          r,
          r',
          ap db.requests filed ∙ locked.1,
          locked.3,
          locked.2,
          same,
          lone ∙ locked.3,
          owner,
          revision,
          status,
          refl,
        )),
  )

module _ (env : Env) (ids : List DomainId) (actor : Actor) (id : DomainId) where
  abbrev Filed : Db → Type 0
  Filed db = (r : SupportRequest) → db.requests id ≡ some r → r.id ≡ id

  cancelled-Changes :
      (r : SupportRequest) (db : Db)
      → IsLocked id db r db
      → r.id ≡ id
      → Leaves
          (λ _ d. Changes ids db d)
          (cancel_request env.refuses
            (record r { status = SupportRequestStatus.cancelled; updated_at = env.now })
            db)
  unfolding cancel_request
  cancelled-Changes r db locked filed = Leaves-guarded _ (env.refuses Query.cancel_request) _ db (
      rw (ap db.requests filed ∙ locked.1) (
        Leaves-state (Changes ids db)
          (written_request r.id
            (cancelled_request
              (record r { status = SupportRequestStatus.cancelled; updated_at = env.now }) r)
            db)
          (revised ids db id r _ locked filed refl refl refl refl (inr refl))))

  acknowledged-Changes :
      (input : UpdateSupportRequestAcknowledgementInput) (r : SupportRequest) (db : Db)
      → IsLocked id db r db
      → r.id ≡ id
      → Leaves
          (λ _ d. Changes ids db d)
          (acknowledge_request env.refuses
            (record r {
              acknowledged_at = some env.now;
              acknowledgement_kind = some input.kind;
              estimated_support_at = input.estimated_support_at;
              updated_at = env.now;
            })
            db)
  unfolding acknowledge_request
  acknowledged-Changes input r db locked filed =
      let value : SupportRequest = record r {
        acknowledged_at = some env.now;
        acknowledgement_kind = some input.kind;
        estimated_support_at = input.estimated_support_at;
        updated_at = env.now;
      } in
      Leaves-guarded _ (env.refuses Query.acknowledge_request) _ db (
        rw (ap db.requests filed ∙ locked.1) (
          Leaves-state (Changes ids db) (written_request r.id (acknowledged_request value r) db) (
            revised ids db id r (acknowledged_request value r) locked filed refl refl refl refl
              (inl locked.2))))

  pub acknowledge_work-Changes :
      (input : UpdateSupportRequestAcknowledgementInput) (db : Db)
      → Filed db
      → Leaves (λ _ d. Changes ids db d) (acknowledge_work env actor id input db)
  unfolding acknowledge_work
  acknowledge_work-Changes input db filed =
      Leaves-go_on (λ _ d. Changes ids db d) (IsLocked id db)
        (lock_pending env actor id input.expected_revision db) _
        (lock_pending-IsLocked env actor id input.expected_revision db)
        λ r d locked.
          rw locked.0 (
            acknowledged-Changes input r db (refl, locked.1, locked.2, locked.3) (filed r locked.1))

  cancel_fresh-Changes :
      (expected : ℕ) (scope : IdempotencyScope) (db : Db)
      → Filed db
      → Leaves (λ _ d. Changes ids db d) (cancel_fresh env actor id expected scope db)
  unfolding cancel_fresh
  cancel_fresh-Changes expected scope db filed =
      Leaves-go_on (λ _ d. Changes ids db d) (IsLocked id db)
        (lock_pending env actor id expected db) _ (lock_pending-IsLocked env actor id expected db)
        λ r d locked. rw locked.0 (
          Leaves-go_on (λ _ d. Changes ids db d) (λ _ d. Changes ids db d)
            (cancel_request env.refuses
              (record r { status = SupportRequestStatus.cancelled; updated_at = env.now }) db)
            (complete_request env scope 200 env.now)
            (cancelled-Changes r db (refl, locked.1, locked.2, locked.3) (filed r locked.1))
            λ r' d' c.
              Leaves-state (Changes ids db) (complete_request env scope 200 env.now r' d')
                (kept ids db d' _ c (complete_request-OnlyKeys env scope 200 env.now r' d')))

  pub cancel_work-Changes :
      (expected : ℕ) (scope : IdempotencyScope) (hash : Str) (db : Db)
      → Filed db
      → Leaves (λ _ d. Changes ids db d) (cancel_work env actor id expected scope hash db)
  unfolding cancel_work
  cancel_work-Changes expected scope hash db filed =
      Leaves-keys (λ _ d. Changes ids db d) (acquire_idempotency env scope hash)
        (on_cancel_claim env actor id expected scope) db
        (acquire_idempotency-OnlyKeys env scope hash) λ claim keys. claimed claim keys
    where
      claimed :
          (claim : Evaluation) (keys : Keys)
          → Leaves
              (λ _ d. Changes ids db d)
              (on_cancel_claim env actor id expected scope claim (record db { keys = keys }))
      claimed Evaluation.start keys =
          cancel_fresh-Changes expected scope (record db { keys = keys }) filed
      claimed (Evaluation.take_over r) keys =
          cancel_fresh-Changes expected scope (record db { keys = keys }) filed
      claimed (Evaluation.replay r) keys =
          Leaves-lift _ (cancel_replay r) _ (record db { keys = keys })
            λ result _. Leaves-pure _ (result, none) (record db { keys = keys }) (refl, inl refl)

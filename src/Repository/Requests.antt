-- ===== src/Repository/Requests.antt =====
-- The statements on support requests of server/internal/repository/artifact_support.go, with
-- db/queries/artifact_support.sql and users.sql. An `EXISTS` runs over `ids`, the keys that a row of
-- the table may have.
use mite.Prelude.{
  ◌+◌, Bool, true, false, ◌&&◌, ◌||◌, Option, none, some, List, [], ◌∷◌, fail_if, write, ◌==◌, ◌!=◌,
  ok, err, ℕ,
}
use mite.Prelude
use mite.Text.{Str, eq_str}
use mite.Json.{Body}
use mite.Domain.Errors.{Res, domain, failure, no_rows, duplicate_active_request}
use mite.Domain.Enums.{
  Role, SupportRequestStatus, SupportSessionStatus, eq_support_request_status,
  eq_support_session_status,
}
use mite.Domain.Value.{DomainId}
use mite.Domain.User.{UserPair}
use mite.Domain.Artifact.{Artifact, ArtifactDeletionTask, artifact_validate}
use mite.Domain.Request.{request_validate}
use mite.Domain.Idempotency.{IdempotencyScope, IdempotencyRecord}
use mite.Domain.Enums.{IdempotencyStatus, eq_idempotency_status}
use mite.Domain.Support.{Time, SupportRequest, SupportSession}
use mite.Repository.{Tx, Query, guarded, pure, lift, ◌>>=◌}
use mite.Repository.Keys.{completed_row, record_from_db, put_key}
use mite.Repository.Leaves.{asks}

-- `artifactSupportArtifactFromDB` and `artifactSupportRequestFromDB`: a row is validated.
unfoldable pub artifact_from_db : Option Artifact → Res (Option Artifact)
artifact_from_db none = ok none
artifact_from_db (some a) = Prelude.◌>>=◌ (artifact_validate a) λ _. ok (some a)

unfoldable pub request_from_db : SupportRequest → Res SupportRequest
request_from_db r = Prelude.◌>>=◌ (request_validate r) λ _. ok r

unfoldable pub request_row : Option SupportRequest → Res (Option SupportRequest)
unfolding request_from_db
request_row none = ok none
request_row (some r) = Prelude.◌>>=◌ (request_from_db r) λ r. ok (some r)

-- `user_id = $1 AND status IN ('PENDING', 'IN_SUPPORT')`.
abbrev pub is_active : SupportRequest → Bool
is_active r =
    r.status == SupportRequestStatus.pending || r.status == SupportRequestStatus.in_support

abbrev pub active_of : DomainId → Option SupportRequest → Bool
active_of user_id none = false
active_of user_id (some r) = r.user_id == user_id && is_active r

-- `user_id = $1 AND status <> 'ENDED'`.
abbrev pub open_of : DomainId → Option SupportSession → Bool
open_of user_id none = false
open_of user_id (some s) = s.user_id == user_id && s.status != SupportSessionStatus.ended

unfoldable pub exists_row : (DomainId → Bool) → List DomainId → Bool
exists_row p [] = false
exists_row p (id ∷ ids) = p id || exists_row p ids

unfoldable pub has_task : Str → List ArtifactDeletionTask → Bool
has_task key [] = false
has_task key (t ∷ ts) = t.storage_key == key || has_task key ts

-- The columns that `CreateRegularSupportRequest` sets.
abbrev pub inserted_request : SupportRequest → SupportRequest
inserted_request r = record r {
  status = SupportRequestStatus.pending;
  support_session_id = none;
  guide_context = none;
  acknowledged_at = none;
  acknowledgement_kind = none;
  estimated_support_at = none;
  revision = 1;
}

abbrev pub acknowledged_request : SupportRequest → SupportRequest → SupportRequest
acknowledged_request value row = record row {
  acknowledged_at = value.acknowledged_at;
  acknowledgement_kind = value.acknowledgement_kind;
  estimated_support_at = value.estimated_support_at;
  updated_at = value.updated_at;
  revision = row.revision + 1;
}

abbrev pub cancelled_request : SupportRequest → SupportRequest → SupportRequest
cancelled_request value row = record row {
  status = SupportRequestStatus.cancelled;
  updated_at = value.updated_at;
  revision = row.revision + 1;
}

-- A row is written and read back.
abbrev pub written_request : DomainId → SupportRequest → Tx SupportRequest
written_request id row db =
    (request_from_db row, record db { requests = write db.requests id (some row) })

abbrev pub insert_at : Option SupportRequest → DomainId → SupportRequest → Tx SupportRequest
insert_at none id row db = written_request id row db
insert_at (some old) id row db = (err failure, db)

abbrev pub update_at :
    Option SupportRequest → (SupportRequest → SupportRequest) → DomainId → Tx SupportRequest
update_at none f id db = (err no_rows, db)
update_at (some row) f id db = written_request id (f row) db

-- `WHERE … AND status = 'IN_PROGRESS' RETURNING *`: whether a row was completed.
abbrev pub finish_if : Bool → IdempotencyRecord → IdempotencyScope → Tx Bool
finish_if false row scope db = (ok false, db)
finish_if true row scope db = (record_from_db row >>= λ _. pure true) (put_key scope row db)

abbrev pub finish_at : Option IdempotencyRecord → IdempotencyScope → ℕ → Body → Time → Tx Bool
finish_at none scope status body now db = (ok false, db)
finish_at (some r) scope status body now db =
    finish_if (r.status == IdempotencyStatus.in_progress) (completed_row status body now r) scope db

module _ (refuses : Query → Bool) where
  -- `LockUser`: the role of the user.
  unfoldable pub lock_user : DomainId → Tx (Option Role)
  lock_user id db = guarded (refuses Query.lock_user) (asks (λ db. ok (db.users id))) db

  -- `GetUserPair`.
  unfoldable pub find_pair : DomainId → Tx (Option UserPair)
  find_pair actor_id db = guarded (refuses Query.find_pair) (asks (λ db. ok (db.pairs actor_id))) db

  unfoldable pub has_active_request : List DomainId → DomainId → Tx Bool
  unfolding exists_row
  has_active_request ids user_id db =
      guarded (refuses Query.has_active_request)
        (asks (λ db. ok (exists_row (λ id. active_of user_id (db.requests id)) ids))) db

  unfoldable pub has_open_session : List DomainId → DomainId → Tx Bool
  unfolding exists_row
  has_open_session ids user_id db =
      guarded (refuses Query.has_open_session)
        (asks (λ db. ok (exists_row (λ id. open_of user_id (db.sessions id)) ids))) db

  -- `LockAvailableArtifact`.
  unfoldable pub lock_artifact : DomainId → Tx (Option Artifact)
  unfolding artifact_from_db
  lock_artifact id db =
      guarded (refuses Query.lock_artifact) (asks (λ db. artifact_from_db (db.artifacts id))) db

  unfoldable pub has_deletion_task : Str → Tx Bool
  unfolding has_task
  has_deletion_task key db =
      guarded (refuses Query.has_deletion_task) (asks (λ db. ok (has_task key db.deletions))) db

  -- `LockSupportRequest`.
  unfoldable pub lock_request_row : DomainId → Tx (Option SupportRequest)
  unfolding request_row
  lock_request_row id db =
      guarded (refuses Query.lock_request) (asks (λ db. request_row (db.requests id))) db

  -- `CreateSupportRequest`. Where the index on active requests is what refuses the row, the error is
  -- a named one.
  unfoldable pub insert_request : SupportRequest → Tx SupportRequest
  unfolding request_validate request_from_db
  insert_request r = lift (request_validate r) >>= λ _.
      lift (fail_if (refuses Query.unique_active) (domain duplicate_active_request)) >>= λ _.
      guarded (refuses Query.insert_request)
        (λ db. insert_at (db.requests r.id) r.id (inserted_request r) db)

  -- `UpdateSupportRequestAcknowledgement`.
  unfoldable pub acknowledge_request : SupportRequest → Tx SupportRequest
  unfolding request_from_db
  acknowledge_request r =
      guarded (refuses Query.acknowledge_request)
        (λ db. update_at (db.requests r.id) (acknowledged_request r) r.id db)

  -- `CancelSupportRequest`.
  unfoldable pub cancel_request : SupportRequest → Tx SupportRequest
  unfolding request_from_db
  cancel_request r =
      guarded (refuses Query.cancel_request)
        (λ db. update_at (db.requests r.id) (cancelled_request r) r.id db)

  -- `CompleteIdempotency`, which reads the row back.
  unfoldable pub finish_key : IdempotencyScope → ℕ → Body → Time → Tx Bool
  unfolding record_from_db
  finish_key scope status body now db =
      guarded (refuses Query.complete_key) (finish_at (db.keys scope) scope status body now) db

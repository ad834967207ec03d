-- ===== src/Repository/Keys.antt =====
-- The rows of `idempotency_records`: server/internal/repository/idempotency.go and the methods of
-- support_sessions.go on them, with db/queries/idempotency.sql.
pub mod Only
use mite.Prelude.{
  ℕ, ◌+◌, Bool, true, false, ◌&&◌, Option, none, some, leb, write, ◌==◌, ok, err, fail_if,
}
use mite.Text.{Str}
use mite.Json.{Body}
use mite.Domain.Errors.{no_rows, failure, domain, idempotency_request_in_progress}
use mite.Domain.Enums.{IdempotencyStatus, eq_idempotency_status}
use mite.Domain.Value.{DomainId}
use mite.Domain.Support.{Time}
use mite.Domain.Idempotency.{
  IdempotencyScope, IdempotencyRecord, eq_scope, new_request_hash, new_idempotency_key,
  record_validate, idempotency_lease, idempotency_retention,
}
use mite.Repository.{Db, Tx, Query, guarded, pure, lift, ◌>>=◌}

-- `idempotencyRecordFromDB`.
unfoldable pub record_from_db : IdempotencyRecord → Tx IdempotencyRecord
record_from_db r = do
  _ ← lift (new_request_hash r.request_hash)
  _ ← lift (new_idempotency_key r.scope.key)
  _ ← lift (record_validate r)
  pure r

-- `lease_expires_at <= now` of a row in progress.
abbrev pub lease_over : IdempotencyRecord → Time → Bool
lease_over r now = elim r.lease_expires_at [ none ↦ false | some t ↦ leb t now ]

abbrev coalesce : Option DomainId → Option DomainId → Option DomainId
coalesce none b = b
coalesce (some a) b = some a

-- The row of a taken-over lease.
abbrev pub taken_row : IdempotencyRecord → Option DomainId → Time → IdempotencyRecord
taken_row r resource_id now = record r {
  lease_expires_at = some (now + idempotency_lease);
  resource_id = coalesce r.resource_id resource_id;
}

abbrev pub completed_row : ℕ → Body → Time → IdempotencyRecord → IdempotencyRecord
completed_row status body now r = record r {
  status = IdempotencyStatus.completed;
  response_status = some status;
  response_body = some body;
  lease_expires_at = none;
  completed_at = some now;
  expires_at = some (now + idempotency_retention);
}

-- The row that `SessionCreateIdempotencyRecord` inserts.
abbrev pub fresh_row : IdempotencyScope → Str → Time → IdempotencyRecord
fresh_row scope hash now = record {
  scope = scope;
  request_hash = hash;
  status = IdempotencyStatus.in_progress;
  resource_id = none;
  response_status = none;
  response_body = none;
  lease_expires_at = some (now + idempotency_lease);
  created_at = now;
  completed_at = none;
  expires_at = none;
}

abbrev pub put_key : IdempotencyScope → IdempotencyRecord → Db → Db
put_key scope r db = record db { keys = write db.keys scope (some r) }

-- The statements on the row that a scope has, or on its absence.
abbrev pub begin_at : Option IdempotencyRecord → IdempotencyScope → Str → Time → Tx Bool
begin_at (some r) scope hash now db = (ok false, db)
begin_at none scope hash now db = (ok true, put_key scope (fresh_row scope hash now) db)

abbrev pub lock_at : Option IdempotencyRecord → Tx (Option IdempotencyRecord)
lock_at none = pure none
lock_at (some r) = do value ← record_from_db r; pure (some value)

-- `WHERE status = 'IN_PROGRESS' AND lease_expires_at <= now`.
abbrev pub can_take : IdempotencyRecord → Time → Bool
can_take r now = r.status == IdempotencyStatus.in_progress && lease_over r now

abbrev pub take_if : Bool → IdempotencyRecord → IdempotencyScope → Tx (Option IdempotencyRecord)
take_if false row scope db = (ok none, db)
take_if true row scope db = lock_at (some row) (put_key scope row db)

abbrev pub take_at :
    Option IdempotencyRecord
    → IdempotencyScope
    → Option DomainId
    → Time
    → Tx (Option IdempotencyRecord)
take_at none scope resource_id now = pure none
take_at (some r) scope resource_id now =
    take_if (can_take r now) (taken_row r resource_id now) scope

abbrev pub complete_if : Bool → IdempotencyRecord → IdempotencyScope → Tx (Unit {0})
complete_if false row scope db = (err no_rows, db)
complete_if true row scope db = (ok tt, put_key scope row db)

abbrev pub complete_at :
    Option IdempotencyRecord → IdempotencyScope → ℕ → Body → Time → Tx (Unit {0})
complete_at none scope status body now db = (err no_rows, db)
complete_at (some r) scope status body now db =
    complete_if (r.status == IdempotencyStatus.in_progress) (completed_row status body now r) scope
      db

abbrev pub create_at : Option IdempotencyRecord → IdempotencyRecord → Tx (Unit {0})
create_at (some old) r db = (err failure, db)
create_at none r db = (record_from_db r >>= λ _. pure tt) (put_key r.scope r db)

module _ (refuses : Query → Bool) where
  -- `BeginIdempotency`: `INSERT … ON CONFLICT DO NOTHING`, and whether a row was inserted.
  unfoldable pub begin_key : IdempotencyScope → Str → Time → Tx Bool
  begin_key scope hash now db =
      guarded (refuses Query.begin_key) (begin_at (db.keys scope) scope hash now) db

  -- `LockIdempotency` and `Get`: the row, if there is one.
  unfoldable pub lock_key : IdempotencyScope → Tx (Option IdempotencyRecord)
  unfolding record_from_db
  lock_key scope db = guarded (refuses Query.lock_key) (lock_at (db.keys scope)) db

  -- `TakeOverExpiredLease`: the new row, unless the lease is held or the request is completed.
  unfoldable pub take_over_key :
      IdempotencyScope → Option DomainId → Time → Tx (Option IdempotencyRecord)
  unfolding record_from_db
  take_over_key scope resource_id now db =
      guarded (refuses Query.take_over_key) (take_at (db.keys scope) scope resource_id now) db

  -- `CompleteIdempotency`: only a row in progress is completed.
  unfoldable pub complete_key : IdempotencyScope → ℕ → Body → Time → Tx (Unit {0})
  complete_key scope status body now db =
      guarded (refuses Query.complete_key) (complete_at (db.keys scope) scope status body now) db

  -- `GetIdempotency` of guides: the scope is locked first, which fails if another transaction has it.
  unfoldable pub get_key : IdempotencyScope → Tx (Option IdempotencyRecord)
  unfolding lock_key
  get_key scope =
      guarded (refuses Query.try_lock_key)
        (lift (fail_if (refuses Query.key_is_locked) (domain idempotency_request_in_progress)))
      >>= λ _. lock_key scope

  -- `CreateIdempotency`: the scope has no row yet.
  unfoldable pub create_key : IdempotencyRecord → Tx (Unit {0})
  unfolding record_from_db
  create_key r db = guarded (refuses Query.create_key) (create_at (db.keys r.scope) r) db

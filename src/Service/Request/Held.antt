-- ===== src/Service/Request/Held.antt =====
-- Keys in server/internal/service/artifact_support.go: what begins and completes them writes no other
-- table.
use mite.Prelude.{ℕ, refl, Bool, true, false, not, Option, none, some, fail_if}
use mite.Text.{Str, eq_str}
use mite.Json.{Body, error_body, request_body}
use mite.Domain.Errors.{ErrorCode}
use mite.Domain.Enums.{eq_support_request_status}
use mite.Domain.Support.{Time, SupportRequest}
use mite.Domain.Idempotency.{IdempotencyScope, IdempotencyRecord}
use mite.Repository.{Db, Query, lift, pure}
use mite.Repository.Keys.Only.{
  KeysOnly, OnlyKeys-refl, OnlyKeys-trans, bind-KeysOnly, guarded-KeysOnly, record_from_db-same,
  begin_key-OnlyKeys, lock_key-OnlyKeys, take_over_key-OnlyKeys, after-OnlyKeys,
}
use mite.Repository.Keys.{put_key, begin_key, lock_key, take_over_key, record_from_db}
use mite.Repository.Requests.{finish_if, finish_at, finish_key}
use mite.Service.Env.{Env}
use mite.Service.Idempotency.{Evaluation, evaluate_idempotency, new_in_progress_record}
use mite.Service.Snapshot.{request_snapshot}
use mite.Service.Request.Common.{
  business_status, taken_over, on_evaluation, on_row, acquire_idempotency, complete_business_error,
  complete_request,
}

finish_if-OnlyKeys :
    (b : Bool) (row : IdempotencyRecord) (scope : IdempotencyScope)
    → KeysOnly (finish_if b row scope)
finish_if-OnlyKeys false row scope db = OnlyKeys-refl db
finish_if-OnlyKeys true row scope db =
    let next : Db = put_key scope row db in
    OnlyKeys-trans db next (finish_if true row scope db).1 (next.keys, refl)
      (after-OnlyKeys next (record_from_db row next) (λ _. pure true)
        (next.keys, record_from_db-same row next) λ a d. OnlyKeys-refl d)

finish_at-OnlyKeys :
    (o : Option IdempotencyRecord) (scope : IdempotencyScope) (status : ℕ) (body : Body)
    (now : Time)
    → KeysOnly (finish_at o scope status body now)
finish_at-OnlyKeys none scope status body now db = OnlyKeys-refl db
finish_at-OnlyKeys (some r) scope status body now db = finish_if-OnlyKeys _ _ scope db

module _ (env : Env) (scope : IdempotencyScope) where
  finish_key-OnlyKeys :
      (status : ℕ) (body : Body) (now : Time)
      → KeysOnly (finish_key env.refuses scope status body now)
  unfolding finish_key
  finish_key-OnlyKeys status body now db =
      guarded-KeysOnly (env.refuses Query.complete_key)
        (finish_at (db.keys scope) scope status body now) db
        (finish_at-OnlyKeys (db.keys scope) scope status body now db)

  on_evaluation-OnlyKeys :
      (row : IdempotencyRecord) (e : Evaluation) → KeysOnly (on_evaluation env scope row e)
  unfolding on_evaluation
  on_evaluation-OnlyKeys row Evaluation.start db = OnlyKeys-refl db
  on_evaluation-OnlyKeys row (Evaluation.replay r) db = OnlyKeys-refl db
  on_evaluation-OnlyKeys row (Evaluation.take_over r) db =
      bind-KeysOnly (take_over_key env.refuses scope none env.now) (taken_over env r)
        (take_over_key-OnlyKeys env.refuses scope none env.now) taken db
    where
      taken : (o : Option IdempotencyRecord) → KeysOnly (taken_over env r o)
      taken none db = OnlyKeys-refl db
      taken (some row) db = OnlyKeys-refl db

  on_row-OnlyKeys :
      (created : Bool) (hash : Str) (o : Option IdempotencyRecord)
      → KeysOnly (on_row env created scope hash o)
  on_row-OnlyKeys true hash none db = OnlyKeys-refl db
  on_row-OnlyKeys false hash none db = OnlyKeys-refl db
  on_row-OnlyKeys true hash (some r) db = OnlyKeys-refl db
  on_row-OnlyKeys false hash (some r) db =
      bind-KeysOnly (lift (evaluate_idempotency (some r) hash env.now)) (on_evaluation env scope r)
        OnlyKeys-refl (on_evaluation-OnlyKeys r) db

  -- `acquireIdempotency` writes nothing but its record.
  pub acquire_idempotency-OnlyKeys : (hash : Str) → KeysOnly (acquire_idempotency env scope hash)
  unfolding acquire_idempotency
  acquire_idempotency-OnlyKeys hash =
      bind-KeysOnly (lift (new_in_progress_record scope hash none env.now)) _ OnlyKeys-refl λ _.
        bind-KeysOnly (begin_key env.refuses scope hash env.now) _
          (begin_key-OnlyKeys env.refuses scope hash env.now)
          λ created.
            bind-KeysOnly (lock_key env.refuses scope) (on_row env created scope hash)
              (lock_key-OnlyKeys env.refuses scope) (on_row-OnlyKeys created hash)

  pub complete_business_error-OnlyKeys :
      (request_id : Str) (code : ErrorCode) (now : Time)
      → KeysOnly (complete_business_error env scope request_id code now)
  unfolding complete_business_error
  complete_business_error-OnlyKeys request_id code now =
      bind-KeysOnly
        (finish_key env.refuses scope (business_status code) (error_body code request_id) now) _
        (finish_key-OnlyKeys (business_status code) (error_body code request_id) now)
        λ completed.
          bind-KeysOnly (lift (fail_if (not completed) _)) _ OnlyKeys-refl λ _. OnlyKeys-refl

  pub complete_request-OnlyKeys :
      (status : ℕ) (now : Time) (r : SupportRequest)
      → KeysOnly (complete_request env scope status now r)
  unfolding complete_request
  complete_request-OnlyKeys status now r =
      bind-KeysOnly (finish_key env.refuses scope status (request_body (request_snapshot r)) now) _
        (finish_key-OnlyKeys status (request_body (request_snapshot r)) now)
        λ completed.
          bind-KeysOnly (lift (fail_if (not completed) _)) _ OnlyKeys-refl λ _. OnlyKeys-refl

-- ===== src/Service/Request/Common.antt =====
-- The helpers of server/internal/service/artifact_support.go: roles, keys, stored errors and replays.
use mite.Prelude.{
  ℕ, Bool, true, false, ◌&&◌, ◌||◌, not, Option, none, some, List, [], ◌∷◌, if◌then◌else◌, ◌==◌,
  ◌!=◌, eq_nat, points_to, Result, ok, err, fail_if, is_nil,
}
use mite.Prelude
use mite.Text.{Str, eq_str}
use mite.Json.{Body, request_body, error_body, raw, is_empty}
use mite.Domain.Errors.{
  ErrorCode, Res, domain, fail, internal_error, forbidden, validation_error, not_found,
  invalid_state, revision_conflict, idempotency_key_reused, idempotency_request_in_progress,
  duplicate_active_request, material_conflict, file_too_large,
}
use mite.Domain.Enums.{Role, eq_role}
use mite.Domain.Value.{DomainId}
use mite.Domain.User.{Actor, actor_validate}
use mite.Domain.Event.{Event, EventType, request_data}
use mite.Domain.Support.{Time, SupportRequest, zero_request}
use mite.Domain.Request.{request_validate}
use mite.Domain.Idempotency.{IdempotencyScope, IdempotencyRecord}
use mite.Repository.{Db, Tx, pure, lift, ◌>>=◌}
use mite.Repository.Keys.{begin_key, lock_key, take_over_key}
use mite.Repository.Requests.{finish_key}
use mite.Service.Env.{Env, Outcome}
use mite.Service.Deletion.{normalize_repository_error}
use mite.Service.Idempotency.{Evaluation, evaluate_idempotency, new_in_progress_record}
use mite.Service.Snapshot.{request_snapshot, request_value}

unfoldable pub require_any_role : Actor → Res (Unit {0})
unfolding actor_validate
require_any_role actor =
    Prelude.◌>>=◌ (actor_validate actor)
      λ _. fail_if (actor.role != Role.user && actor.role != Role.family) (domain forbidden)

unfoldable pub require_role : Actor → Role → Res (Unit {0})
unfolding require_any_role
require_role actor role =
    Prelude.◌>>=◌ (require_any_role actor) λ _. fail_if (actor.role != role) (domain forbidden)

-- `IdempotentSupportRequestResult`.
pub record IdempotentSupportRequestResult : Type 0 where
  pub support_request : Option SupportRequest
  pub response_status : ℕ
  pub response_body : Body
  pub replayed : Bool

-- `statusForBusinessCode`.
unfoldable pub business_status : ErrorCode → ℕ
business_status validation_error = 400
business_status forbidden = 403
business_status not_found = 404
business_status invalid_state = 409
business_status revision_conflict = 409
business_status idempotency_key_reused = 409
business_status idempotency_request_in_progress = 409
business_status duplicate_active_request = 409
business_status material_conflict = 409
business_status file_too_large = 413
business_status _ = 500

-- The `data` of a stored response: bytes that are no JSON give nothing, and a document of another
-- shape the zero value.
payload_request : Body → Res SupportRequest
payload_request (raw s) = fail internal_error
payload_request (request_body v) = ok (request_value v)
payload_request _ = ok zero_request

abbrev pub stored_result : ℕ → Body → Option SupportRequest → IdempotentSupportRequestResult
stored_result status body request = record {
  support_request = request;
  response_status = status;
  response_body = body;
  replayed = true;
}

-- `request.Validate()`, whose error becomes an internal one.
abbrev validated_payload : ℕ → Body → SupportRequest → Res IdempotentSupportRequestResult
validated_payload status body r = elim (request_validate r) [
  | err e ↦ fail internal_error
  | ok _ ↦ ok (stored_result status body (some r))
]

replay_body : ℕ → Body → Res IdempotentSupportRequestResult
unfolding payload_request
replay_body status body =
    if is_empty body
    then fail internal_error
    else if status != 201
    then ok (stored_result status body none)
    else Prelude.◌>>=◌ (payload_request body) (validated_payload status body)

-- A stored response without a status or without a body.
abbrev replay_of : Option ℕ → Option Body → Res IdempotentSupportRequestResult
replay_of none body = fail internal_error
replay_of (some status) none = fail internal_error
replay_of (some status) (some body) = replay_body status body

-- `supportRequestReplayResult`.
unfoldable pub request_replay_result : IdempotencyRecord → Res IdempotentSupportRequestResult
unfolding replay_body
request_replay_result r = replay_of r.response_status r.response_body

-- `publishSupportRequestCreated` and `publishSupportRequestUpdated`: the event of a request.
abbrev pub request_event : EventType → DomainId → Time → SupportRequest → Event
request_event type event_id at r = record {
  event_id = event_id;
  type = type;
  occurred_at = at;
  entity_id = r.id;
  revision = r.revision;
  content = request_data (request_snapshot r);
  audience = record { user_id = r.user_id; family_id = r.family_id };
}

-- An event whose id cannot be drawn is not published.
abbrev pub tell_request : Res DomainId → EventType → Time → SupportRequest → List Event
tell_request (err e) type at r = []
tell_request (ok event_id) type at r = request_event type event_id at r ∷ []

-- What a transaction ends with: the result, and the request that it wrote.
abbrev pub Ended : Type 0
Ended = IdempotentSupportRequestResult × Option SupportRequest

-- The error of the transaction, or the result with the event of a request that it wrote.
abbrev pub report_request :
    Res DomainId
    → EventType
    → (SupportRequest → Time)
    → Res Ended × Db
    → Outcome IdempotentSupportRequestResult
report_request event_id type at (err e, db) = (err (normalize_repository_error e), db, [])
report_request event_id type at (ok (result, none), db) = (ok result, db, [])
report_request event_id type at (ok (result, some r), db) =
    (ok result, db, tell_request event_id type (at r) r)

-- `found` or the error.
abbrev pub or_fail {ℓ} : {A : Type ℓ} → Option A → ErrorCode → Res A
or_fail none code = fail code
or_fail (some a) code = ok a

module _ (env : Env) where
  abbrev pub taken_over : IdempotencyRecord → Option IdempotencyRecord → Tx Evaluation
  taken_over r none = lift (fail idempotency_request_in_progress)
  taken_over r (some row) = pure (Evaluation.take_over row)

  unfoldable pub on_evaluation : IdempotencyScope → IdempotencyRecord → Evaluation → Tx Evaluation
  on_evaluation scope row Evaluation.start = pure Evaluation.start
  on_evaluation scope row (Evaluation.replay r) = pure (Evaluation.replay row)
  on_evaluation scope row (Evaluation.take_over r) =
      take_over_key env.refuses scope none env.now >>= taken_over r

  abbrev pub on_row : Bool → IdempotencyScope → Str → Option IdempotencyRecord → Tx Evaluation
  on_row created scope hash none = lift (fail internal_error)
  on_row true scope hash (some row) = pure Evaluation.start
  on_row false scope hash (some row) =
      lift (evaluate_idempotency (some row) hash env.now) >>= on_evaluation scope row

  -- `acquireIdempotency`.
  unfoldable pub acquire_idempotency : IdempotencyScope → Str → Tx Evaluation
  unfolding on_evaluation
  acquire_idempotency scope hash = do
    _ ← lift (new_in_progress_record scope hash none env.now)
    created ← begin_key env.refuses scope hash env.now
    row ← lock_key env.refuses scope
    on_row created scope hash row

  -- `completeSupportRequestBusinessError`.
  unfoldable pub complete_business_error : IdempotencyScope → Str → ErrorCode → Time → Tx Ended
  unfolding business_status
  complete_business_error scope request_id code now = do
    let status = business_status code
    let body = error_body code request_id
    completed ← finish_key env.refuses scope status body now
    _ ← lift (fail_if (not completed) (domain internal_error))
    pure (
      record {
        support_request = none;
        response_status = status;
        response_body = body;
        replayed = false;
      },
      none,
    )

  -- The end of a transaction that wrote a request.
  unfoldable pub complete_request : IdempotencyScope → ℕ → Time → SupportRequest → Tx Ended
  complete_request scope status now request = do
    let body = request_body (request_snapshot request)
    completed ← finish_key env.refuses scope status body now
    _ ← lift (fail_if (not completed) (domain internal_error))
    pure (
      record {
        support_request = some request;
        response_status = status;
        response_body = body;
        replayed = false;
      },
      some request,
    )

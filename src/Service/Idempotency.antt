-- ===== src/Service/Idempotency.antt =====
-- server/internal/service/idempotency.go: what becomes of a request whose key may be known already.
pub mod Laws
use mite.Prelude.{
  ℕ, ◌+◌, Bool, true, false, ◌&&◌, ◌||◌, not, Option, none, some, if◌then◌else◌, ltb, ◌==◌, ◌!=◌,
  Result, ok, err, ◌>>=◌,
}
use mite.Text.{Str, eq_str}
use mite.Json.{Body, json_valid}
use mite.Domain.Errors.{
  Error, Res, fail, internal_error, idempotency_key_reused, idempotency_request_in_progress,
}
use mite.Domain.Enums.{IdempotencyStatus, eq_idempotency_status}
use mite.Domain.Value.{DomainId}
use mite.Domain.Support.{Time}
use mite.Domain.Idempotency.{
  IdempotencyScope, IdempotencyRecord, record_validate, new_request_hash, idempotency_lease,
  idempotency_retention,
}

-- `IdempotencyEvaluation`: the decision with the record it is about.
pub data Evaluation : Type 0 where
  start : Evaluation
  take_over : IdempotencyRecord → Evaluation
  replay : IdempotencyRecord → Evaluation

-- `record.LeaseExpiresAt != nil && record.LeaseExpiresAt.After(now)`.
abbrev pub lease_held : Option Time → Time → Bool
lease_held none now = false
lease_held (some t) now = ltb now t

unfoldable pub evaluate_idempotency : Option IdempotencyRecord → Str → Time → Res Evaluation
evaluate_idempotency none request_hash now = do _ ← new_request_hash request_hash; ok start
evaluate_idempotency (some r) request_hash now = do
  _ ← new_request_hash request_hash
  _ ← record_validate r
  if r.request_hash != request_hash
      then fail idempotency_key_reused
      else if r.status == IdempotencyStatus.completed
      then ok (replay r)
      else if lease_held r.lease_expires_at now
      then fail idempotency_request_in_progress
      else ok (take_over r)

-- `return record, record.Validate()`.
abbrev validated : IdempotencyRecord → Res IdempotencyRecord
validated r = do _ ← record_validate r; ok r

unfoldable pub new_in_progress_record :
    IdempotencyScope → Str → Option DomainId → Time → Res IdempotencyRecord
new_in_progress_record scope request_hash resource_id now = validated (record {
  scope = scope;
  request_hash = request_hash;
  status = IdempotencyStatus.in_progress;
  resource_id = resource_id;
  response_status = none;
  response_body = none;
  lease_expires_at = some (now + idempotency_lease);
  created_at = now;
  completed_at = none;
  expires_at = none;
})

unfoldable pub complete_record : IdempotencyRecord → ℕ → Body → Time → Res IdempotencyRecord
complete_record r response_status response_body now =
    if ltb response_status 100 || ltb 599 response_status || not (json_valid response_body)
    then fail internal_error
    else validated (record r {
      status = IdempotencyStatus.completed;
      response_status = some response_status;
      response_body = some response_body;
      lease_expires_at = none;
      completed_at = some now;
      expires_at = some (now + idempotency_retention);
    })

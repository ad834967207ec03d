-- ===== src/Service/Idempotency/Laws.antt =====
-- The life of an idempotency key (server/internal/service/idempotency.go).
use mite.Prelude.{if◌then◌else◌, ltb, ◌==◌, ℕ, ◌+◌, ◌≡◌, Option, some, arith, ok}
use mite.Text.{Str, eq_str, str_eq_iff}
use mite.Json.{Body}
use mite.Domain.Errors.{fail, idempotency_key_reused, idempotency_request_in_progress}
use mite.Domain.Value.{DomainId}
use mite.Domain.Support.{Time}
use mite.Domain.Idempotency.{IdempotencyScope, IdempotencyRecord, record_validate, new_request_hash}
use mite.Service.Idempotency.{
  take_over, replay, evaluate_idempotency, new_in_progress_record, complete_record,
}

-- A record of a request in progress holds its key for exactly two minutes of
-- nanoseconds: until then the same
-- request is refused, and from then on it may be taken over.
pub new_in_progress_record-lease :
    (scope : IdempotencyScope) (hash : Str) (id : Option DomainId) (now later : Time)
    (r : IdempotencyRecord)
    → new_in_progress_record scope hash id now ≡ ok r
    → evaluate_idempotency (some r) hash later ≡ (
        if ltb later (now + 120000000000)
        then fail idempotency_request_in_progress
        else ok (take_over r))
unfolding new_in_progress_record evaluate_idempotency record_validate
new_in_progress_record-lease scope hash id now later r h =
    ground (arith, str_eq_iff hash hash, str_eq_iff r.request_hash hash)

-- A completed record is replayed to the same request at any time, and its key is refused to
-- every other request with a valid hash; it keeps the scope and the response.
pub complete_record-replay :
    (r c : IdempotencyRecord) (status : ℕ) (body : Body) (hash : Str) (now later : Time)
    → complete_record r status body now ≡ ok c
    → new_request_hash hash ≡ ok hash
    → (c.response_status ≡ some status)
      × (c.response_body ≡ some body)
      × (c.scope ≡ r.scope)
      × (evaluate_idempotency (some c) hash later
          ≡ (if hash == r.request_hash then ok (replay c) else fail idempotency_key_reused))
unfolding complete_record evaluate_idempotency record_validate
complete_record-replay r c status body hash now later h valid = ground (
  arith,
  str_eq_iff c.request_hash hash,
  str_eq_iff r.request_hash hash,
  str_eq_iff hash r.request_hash,
)

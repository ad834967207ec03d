-- ===== src/Domain/Errors.antt =====
-- server/internal/domain/errors.go: errors that carry a code; `other` holds a string that is none
-- of the named codes. No code branches on the texts of
-- the messages, so an error is its code; `no_rows` is `pgx.ErrNoRows`, wrapped or not, and `failure`
-- any other error of another package.
use mite.Prelude.{Option, none, some, Result, err}
use mite.Text.{Str}

pub data ErrorCode : Type 0 where
  validation_error unauthenticated forbidden not_found invalid_state : ErrorCode
  revision_conflict idempotency_key_reused idempotency_request_in_progress : ErrorCode
  duplicate_active_request material_conflict file_too_large : ErrorCode
  insufficient_materials internal_error external_service_unavailable : ErrorCode
  other : Str → ErrorCode

-- `domain` is a `*domain.Error`, and `operation` one that a service wraps together with the id of
-- the HTTP request (`SupportSessionOperationError`, `GuideOperationError`).
pub data Error : Type 0 where
  domain : ErrorCode → Error
  operation : ErrorCode → Str → Error
  no_rows failure : Error

abbrev pub Res {ℓ} : Type ℓ → Type ℓ
Res A = Result Error A

-- `NewError`, returned as the error of a call.
abbrev pub fail {ℓ} : {A : Type ℓ} → ErrorCode → Res A
fail c = err (domain c)

-- `ErrorCodeOf`: `errors.As` sees through the wrapping.
abbrev pub error_code_of : Error → Option ErrorCode
error_code_of (domain c) = some c
error_code_of (operation c r) = some c
error_code_of no_rows = none
error_code_of failure = none

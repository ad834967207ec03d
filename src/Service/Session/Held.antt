-- ===== src/Service/Session/Held.antt =====
-- `beginSessionIdempotency` and `persistMutationError` of server/internal/service/support_sessions.go,
-- and how a transaction goes on after them.
use mite.Prelude.{Bool, true, false, Option, none, some, List, [], eq_nat, ok, err}
use mite.Text.{Str}
use mite.Json.{error_body}
use mite.Domain.Errors.{
  Error, ErrorCode, Res, operation, fail, error_code_of, internal_error,
  idempotency_request_in_progress,
}
use mite.Domain.Event.{Event}
use mite.Domain.Idempotency.{IdempotencyScope, IdempotencyRecord}
use mite.Repository.{Tx, pure, lift, ◌>>=◌, ◌>>◌}
use mite.Repository.Keys.{begin_key, lock_key, take_over_key, complete_key}
use mite.Service.Env.{Env}
use mite.Service.Idempotency.{Evaluation, evaluate_idempotency}
use mite.Service.Session.Common.{status_for_code}

module _ (env : Env) where
  abbrev pub after_take_over : Option IdempotencyRecord → Tx (Option IdempotencyRecord)
  after_take_over none = lift (fail idempotency_request_in_progress)
  after_take_over (some r) = pure none

  unfoldable pub on_evaluation : IdempotencyScope → Evaluation → Tx (Option IdempotencyRecord)
  on_evaluation scope Evaluation.start = lift (fail internal_error)
  on_evaluation scope (Evaluation.replay r) = pure (some r)
  on_evaluation scope (Evaluation.take_over r) = do
    taken ← take_over_key env.refuses scope none env.now
    after_take_over taken

  abbrev pub on_row :
      IdempotencyScope → Str → Option IdempotencyRecord → Tx (Option IdempotencyRecord)
  on_row scope hash none = lift (fail internal_error)
  on_row scope hash (some r) =
      lift (evaluate_idempotency (some r) hash env.now) >>= on_evaluation scope

  -- The part of `beginSessionIdempotency` for a key that has a record.
  unfoldable pub resume_key : IdempotencyScope → Str → Tx (Option IdempotencyRecord)
  unfolding on_evaluation
  resume_key scope hash = do row ← lock_key env.refuses scope; on_row scope hash row

  abbrev pub on_created : IdempotencyScope → Str → Bool → Tx (Option IdempotencyRecord)
  on_created scope hash true = pure none
  on_created scope hash false = resume_key scope hash

  -- `beginSessionIdempotency`: the completed record that answers the request, or `none` if the
  -- request now holds its key.
  unfoldable pub begin_session_key : IdempotencyScope → Str → Tx (Option IdempotencyRecord)
  begin_session_key scope hash = do
    created ← begin_key env.refuses scope hash env.now
    on_created scope hash created

  abbrev pub persist_code : Option ErrorCode → IdempotencyScope → Error → Str → Tx Error
  persist_code none scope e request_id = lift (err e)
  persist_code (some code) scope e request_id = do
    complete_key env.refuses scope (status_for_code code) (error_body code request_id) env.now
    pure (operation code request_id)

  -- `persistMutationError`: the wrapped error, once it is stored as the response.
  unfoldable pub persist_mutation_error : IdempotencyScope → Error → Str → Tx Error
  unfolding status_for_code
  persist_mutation_error scope e request_id = persist_code (error_code_of e) scope e request_id

  -- `resultErr, err = persistMutationError(…); return err`.
  unfoldable pub reject : {A : Type 0} → IdempotencyScope → Error → Str → Tx (Res A × List Event)
  unfolding persist_mutation_error
  reject scope e request_id = do
    wrapped ← persist_mutation_error scope e request_id
    pure (err wrapped, [])

  -- A check of the work: what it refuses is stored, and the work goes on after it.
  abbrev pub checked :
      {A B : Type 0}
      → IdempotencyScope
      → Str
      → Res A
      → (A → Tx (Res B × List Event))
      → Tx (Res B × List Event)
  checked scope request_id (err e) k = reject scope e request_id
  checked scope request_id (ok a) k = k a

  -- `if replay != nil { … return nil }`.
  abbrev pub answered :
      {A : Type 0}
      → (IdempotencyRecord → Res A)
      → Tx (Res A × List Event)
      → Option IdempotencyRecord
      → Tx (Res A × List Event)
  answered decode k none = k
  answered decode k (some r) = pure (decode r, [])

-- ===== src/Service/Session/Call.antt =====
-- `Call` of server/internal/service/support_sessions.go. The database is read once before the
-- transaction: `preloaded` is its state then, `db` its state when the transaction has its lock.
use mite.Prelude.{
  ℕ, ◌+◌, Bool, true, false, not, Option, none, some, List, [], ◌∷◌, ◌++◌, if◌then◌else◌, ltb,
  Result, ok, err,
}
use mite.Prelude
use mite.Text.{Str, ascii}
use mite.Domain.Errors.{Error, Res, validation_error}
use mite.Domain.Enums.{Role}
use mite.Domain.Value.{DomainId}
use mite.Domain.User.{Actor, authorize}
use mite.Domain.Event.{Event, support_request_updated, support_session_created}
use mite.Domain.Support.{
  SupportRequest, SupportSession, new_ringing_session, validate_expected_revision,
}
use mite.Domain.Idempotency.{IdempotencyScope}
use mite.Repository.{Db, Tx, lift, ◌>>=◌, ◌>>◌}
use mite.Repository.Sessions.{get_request, lock_request, create_session, attach_session}
use mite.Service.Env.{Env, Outcome, call_payload}
use mite.Service.Session.Common.{
  SupportSessionPair, request_pair, idempotency_scope, validate_mutation, decode_pair_replay,
  prepared, conclude,
}
use mite.Service.Session.Held.{begin_session_key, checked, answered}
use mite.Service.Session.Pair.{store_pair}

module _ (env : Env) where
  -- The writes of `Call`.
  unfoldable pub start_call :
      SupportRequest → SupportSession → IdempotencyScope → Tx (Res SupportSessionPair × List Event)
  unfolding store_pair
  start_call request session scope = do
    created ← create_session env.refuses session
    updated ← attach_session env.refuses request.id created.id env.now
    store_pair env scope 201 support_request_updated support_session_created
        (record { support_request = updated; support_session = created })

  unfoldable pub call_checked :
      DomainId
      → ℕ
      → IdempotencyScope
      → Str
      → SupportRequest
      → Tx (Res SupportSessionPair × List Event)
  unfolding start_call
  call_checked session_id expected_revision scope request_id locked =
      checked env scope request_id (validate_expected_revision locked.revision expected_revision)
        λ _.
          checked env scope request_id (new_ringing_session session_id locked env.now)
            λ session. start_call locked session scope

  -- The function that `Call` runs in its transaction.
  unfoldable pub call_work :
      Actor
      → DomainId
      → DomainId
      → ℕ
      → IdempotencyScope
      → Str
      → Str
      → Tx (Res SupportSessionPair × List Event)
  unfolding call_checked
  call_work actor id session_id expected_revision scope hash request_id = do
    locked ← lock_request env.refuses id
    lift (authorize (request_pair locked) actor (Role.family ∷ []))
    replay ← begin_session_key env scope hash
    answered env (λ r. decode_pair_replay r 201)
        (call_checked session_id expected_revision scope request_id locked) replay

  -- What `Call` settles before its transaction: the id, the scope, the hash and the new id.
  unfoldable pub prepare_call :
      Db → Actor → Str → ℕ → Str → Res (DomainId × IdempotencyScope × Str × DomainId)
  unfolding validate_mutation
  prepare_call preloaded actor raw_request_id expected_revision raw_key =
      Prelude.◌>>=◌ (validate_mutation actor raw_request_id raw_key (Role.family ∷ [])) λ (id, key).
        Prelude.◌>>=◌ (Prelude.fail_if (ltb expected_revision 1) (Error.domain validation_error))
          λ _. Prelude.◌>>=◌ (get_request env.refuses id preloaded).0 λ request.
            Prelude.◌>>=◌ (authorize (request_pair request) actor (Role.family ∷ [])) λ _.
              Prelude.◌>>=◌ (env.new_id (ascii "session") 0) λ session_id. ok (
                id,
                idempotency_scope actor (ascii "/v1/support-requests/" ++ (id ++ ascii "/call"))
                    key,
                env.digest (call_payload expected_revision),
                session_id,
              )

  unfoldable pub call : Db → Actor → Str → ℕ → Str → Str → Db → Outcome SupportSessionPair
  unfolding prepare_call call_work conclude
  call preloaded actor raw_request_id expected_revision raw_key request_id db =
      prepared env (prepare_call preloaded actor raw_request_id expected_revision raw_key)
        (λ (id, scope, hash, session_id).
          conclude env (call_work actor id session_id expected_revision scope hash request_id))
        db

-- ===== src/Service/Session/Pair.antt =====
-- `Accept`, `Resolve` and `mutatePair` of server/internal/service/support_sessions.go. The
-- database is read once before the transaction: `preloaded` is its state then, `db` its state when
-- the transaction has its locks.
use mite.Prelude.{
  ℕ, ◌+◌, Bool, true, false, not, Option, none, some, List, [], ◌∷◌, ◌++◌, if◌then◌else◌, ltb,
  Result, ok, err,
}
use mite.Prelude
use mite.Text.{Str, ascii}
use mite.Json.{pair_body}
use mite.Domain.Errors.{Error, Res, validation_error}
use mite.Domain.Enums.{Role, GuideDecision}
use mite.Domain.Status.{decision_valid}
use mite.Domain.Value.{DomainId, new_id}
use mite.Domain.User.{Actor, authorize}
use mite.Domain.Event.{Event, EventType, support_request_updated, support_session_updated}
use mite.Domain.Support.{
  SupportRequest, SupportSession, Consent, accepted, validate_expected_revision, validate_accept,
  validate_resolve,
}
use mite.Domain.Idempotency.{IdempotencyScope, new_idempotency_key}
use mite.Repository.{Db, Tx, pure, lift, ◌>>=◌, ◌>>◌}
use mite.Repository.Sessions.{
  get_session, lock_request, lock_session, activate_request, activate_session, resolve_request,
  resolve_session,
}
use mite.Repository.Keys.{complete_key}
use mite.Service.Env.{Env, Outcome, Payload, accept_payload, resolve_payload}
use mite.Service.Snapshot.{request_snapshot, session_snapshot}
use mite.Service.Session.Common.{
  SupportSessionPair, session_pair, idempotency_scope, authorize_actor_role,
  is_persistent_business_error, decode_pair_replay, prepared, pair_events, conclude,
}
use mite.Service.Session.Held.{begin_session_key, reject, checked, answered}

-- What `prepareSessionMutation` hands on.
pub record Prepared : Type 0 where
  pub id : DomainId
  pub key : Str
  pub session : SupportSession
  pub hash : Str

module _ (env : Env) where
  -- After the change: the response is stored under the key, and the events are made.
  unfoldable pub store_pair :
      IdempotencyScope
      → ℕ
      → EventType
      → EventType
      → SupportSessionPair
      → Tx (Res SupportSessionPair × List Event)
  unfolding pair_events
  store_pair scope status request_event session_event pair = do
    complete_key env.refuses scope status
        (pair_body (request_snapshot pair.support_request) (session_snapshot pair.support_session))
        env.now
    events ←
        lift (pair_events env request_event pair.support_request session_event pair.support_session)
    pure (ok pair, events)

  -- `prepareSessionMutation`.
  unfoldable pub prepare_session_mutation :
      Db → Actor → Str → Str → Payload → List Role → Res Prepared
  unfolding authorize_actor_role
  prepare_session_mutation preloaded actor raw_id raw_key payload roles =
      Prelude.◌>>=◌ (authorize_actor_role actor roles) λ _. Prelude.◌>>=◌ (new_id raw_id) λ id.
        Prelude.◌>>=◌ (new_idempotency_key raw_key) λ key.
          Prelude.◌>>=◌ (get_session env.refuses id preloaded).0 λ session.
            Prelude.◌>>=◌ (authorize (session_pair session) actor roles)
              λ _. ok (record { id = id; key = key; session = session; hash = env.digest payload })

  -- What `mutatePair` makes of the change: the response, the stored error, or the error itself.
  abbrev pub after_change :
      IdempotencyScope
      → Str
      → ℕ
      → Res SupportSessionPair × Db
      → Res (Res SupportSessionPair × List Event) × Db
  after_change scope request_id status (ok pair, db) =
      store_pair scope status support_request_updated support_session_updated pair db
  after_change scope request_id status (err e, db) =
      if is_persistent_business_error e then reject env scope e request_id db else (err e, db)

  unfoldable pub change_checked :
      ℕ
      → IdempotencyScope
      → Str
      → ℕ
      → (SupportRequest → SupportSession → Tx SupportSessionPair)
      → SupportRequest
      → SupportSession
      → Tx (Res SupportSessionPair × List Event)
  unfolding store_pair is_persistent_business_error
  change_checked expected_revision scope request_id status change request locked =
      checked env scope request_id (validate_expected_revision locked.revision expected_revision)
        λ _ db. after_change scope request_id status (change request locked db)

  -- The function that `mutatePair` runs in its transaction.
  unfoldable pub mutate_pair_work :
      Actor
      → SupportSession
      → ℕ
      → IdempotencyScope
      → Str
      → Str
      → ℕ
      → (SupportRequest → SupportSession → Tx SupportSessionPair)
      → Tx (Res SupportSessionPair × List Event)
  unfolding change_checked
  mutate_pair_work actor session expected_revision scope hash request_id status change = do
    request ← lock_request env.refuses session.support_request_id
    locked ← lock_session env.refuses session.id
    lift (authorize (session_pair locked) actor (actor.role ∷ []))
    replay ← begin_session_key env scope hash
    answered env (λ r. decode_pair_replay r status)
        (change_checked expected_revision scope request_id status change request locked) replay

  -- The change of `Accept`.
  unfoldable pub accept_change : Consent → SupportRequest → SupportSession → Tx SupportSessionPair
  accept_change consent request locked = do
    lift (validate_accept locked request consent)
    updated_request ← activate_request env.refuses request.id env.now
    updated_session ← activate_session env.refuses locked.id consent env.now
    pure (record { support_request = updated_request; support_session = updated_session })

  -- The change of `Resolve`.
  unfoldable pub resolve_change :
      GuideDecision → SupportRequest → SupportSession → Tx SupportSessionPair
  resolve_change decision request locked = do
    lift (validate_resolve locked request decision)
    updated_request ← resolve_request env.refuses request.id env.now
    updated_session ← resolve_session env.refuses locked.id decision env.now
    pure (record { support_request = updated_request; support_session = updated_session })

  -- `/v1/support-sessions/{id}/…`.
  abbrev pub session_scope : Actor → Prepared → Str → IdempotencyScope
  session_scope actor p suffix =
      idempotency_scope actor (ascii "/v1/support-sessions/" ++ (p.id ++ suffix)) p.key

  -- The checks of `Accept` before its transaction.
  unfoldable pub prepare_accept : Db → Actor → Str → ℕ → Consent → Str → Res Prepared
  unfolding authorize_actor_role accepted prepare_session_mutation
  prepare_accept preloaded actor raw_session_id expected_revision consent raw_key =
      Prelude.◌>>=◌ (authorize_actor_role actor (Role.user ∷ [])) λ _.
        Prelude.◌>>=◌ (Prelude.fail_if (ltb expected_revision 1) (Error.domain validation_error))
          λ _.
            Prelude.◌>>=◌ (Prelude.fail_if (not (accepted consent)) (Error.domain validation_error))
              λ _.
                prepare_session_mutation preloaded actor raw_session_id raw_key
                  (accept_payload expected_revision consent) (Role.user ∷ [])

  unfoldable pub accept :
      Db → Actor → Str → ℕ → Consent → Str → Str → Db → Outcome SupportSessionPair
  unfolding prepare_accept mutate_pair_work accept_change conclude
  accept preloaded actor raw_session_id expected_revision consent raw_key request_id db =
      prepared env (prepare_accept preloaded actor raw_session_id expected_revision consent raw_key)
        (λ p. conclude env (
          mutate_pair_work actor p.session expected_revision
            (session_scope actor p (ascii "/accept")) p.hash request_id 200
            (accept_change consent)))
        db

  -- The checks of `Resolve` before its transaction.
  unfoldable pub prepare_resolve : Db → Actor → Str → ℕ → GuideDecision → Str → Res Prepared
  unfolding authorize_actor_role decision_valid prepare_session_mutation
  prepare_resolve preloaded actor raw_session_id expected_revision decision raw_key =
      Prelude.◌>>=◌ (authorize_actor_role actor (Role.family ∷ [])) λ _.
        Prelude.◌>>=◌ (Prelude.fail_if (ltb expected_revision 1) (Error.domain validation_error))
          λ _.
            Prelude.◌>>=◌
              (Prelude.fail_if (not (decision_valid decision)) (Error.domain validation_error))
              λ _.
                prepare_session_mutation preloaded actor raw_session_id raw_key
                  (resolve_payload expected_revision decision) (Role.family ∷ [])

  unfoldable pub resolve :
      Db → Actor → Str → ℕ → GuideDecision → Str → Str → Db → Outcome SupportSessionPair
  unfolding prepare_resolve mutate_pair_work resolve_change conclude
  resolve preloaded actor raw_session_id expected_revision decision raw_key request_id db =
      prepared env
        (prepare_resolve preloaded actor raw_session_id expected_revision decision raw_key)
        (λ p. conclude env (
          mutate_pair_work actor p.session expected_revision
            (session_scope actor p (ascii "/resolve")) p.hash request_id 200
            (resolve_change decision)))
        db

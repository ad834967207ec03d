-- ===== src/Service/Session/Common.antt =====
-- The helpers of server/internal/service/support_sessions.go: who may call, how a key is begun, how
-- a refusal is stored and replayed, and the events of a change.
use mite.Prelude.{
  ℕ, ◌+◌, Bool, true, false, ◌&&◌, not, Option, none, some, List, [], ◌∷◌, ◌++◌, if◌then◌else◌,
  ◌==◌, eq_nat, points_to, Result, ok, err,
}
use mite.Prelude
use mite.Text.{Str, ascii}
use mite.Json.{Body, pair_body, session_body, error_body, raw}
use mite.Domain.Errors.{
  Error, ErrorCode, Res, operation, failure, fail, error_code_of, internal_error,
  external_service_unavailable, forbidden, validation_error, unauthenticated, not_found,
}
use mite.Domain.Enums.{Role}
use mite.Domain.Value.{DomainId, new_id}
use mite.Domain.User.{UserPair, Actor, actor_validate, role_allowed}
use mite.Domain.Event.{Event, EventType, request_data, session_data}
use mite.Domain.Support.{SupportRequest, SupportSession, zero_request, zero_session}
use mite.Domain.Idempotency.{IdempotencyScope, IdempotencyRecord, new_idempotency_key}
use mite.Repository.{Db, Tx, Query, transact}
use mite.Service.Env.{Env, Outcome}
use mite.Service.Snapshot.{request_snapshot, request_value, session_snapshot, session_value}

pub record SupportSessionPair : Type 0 where
  pub support_request : SupportRequest
  pub support_session : SupportSession

abbrev pub request_pair : SupportRequest → UserPair
request_pair r = record { user_id = r.user_id; family_id = r.family_id }

abbrev pub session_pair : SupportSession → UserPair
session_pair s = record { user_id = s.user_id; family_id = s.family_id }

-- `idempotencyScope`, always for the method POST.
abbrev pub idempotency_scope : Actor → Str → Str → IdempotencyScope
idempotency_scope actor path key = record {
  actor_id = actor.id;
  method = ascii "POST";
  path = path;
  key = key;
}

unfoldable pub authorize_actor_role : Actor → List Role → Res (Unit {0})
unfolding actor_validate role_allowed
authorize_actor_role actor roles =
    Prelude.◌>>=◌ (actor_validate actor)
      λ _. if not (role_allowed actor.role roles) then fail forbidden else ok tt

-- `validateMutation`.
unfoldable pub validate_mutation : Actor → Str → Str → List Role → Res (DomainId × Str)
unfolding authorize_actor_role
validate_mutation actor raw_id raw_key roles = Prelude.◌>>=◌ (authorize_actor_role actor roles) λ _.
    Prelude.◌>>=◌ (new_id raw_id)
      λ id. Prelude.◌>>=◌ (new_idempotency_key raw_key) λ key. ok (id, key)

unfoldable pub is_persistent_business_error : Error → Bool
is_persistent_business_error e = elim (error_code_of e) [
  | none ↦ false
  | some internal_error ↦ false
  | some external_service_unavailable ↦ false
  | some _ ↦ true
]

-- `supportSessionStatusForDomainCode`.
unfoldable pub status_for_code : ErrorCode → ℕ
status_for_code validation_error = 400
status_for_code unauthenticated = 401
status_for_code forbidden = 403
status_for_code not_found = 404
status_for_code _ = 409

-- `json.Unmarshal` into the envelope of an error: a document without an `error` leaves it empty.
error_of_body : Option Body → Error
error_of_body none = failure
error_of_body (some (raw s)) = failure
error_of_body (some (error_body code request_id)) = operation code request_id
error_of_body (some _) = operation (ErrorCode.other []) []

-- `decodeStoredError`.
unfoldable pub decode_stored_error : IdempotencyRecord → Error
unfolding error_of_body
decode_stored_error r = error_of_body r.response_body

-- `json.Unmarshal` into the envelope of a pair or of a session: a document whose `data` is of
-- another shape leaves the zero value.
pair_of_body : Option Body → Res SupportSessionPair
pair_of_body none = err failure
pair_of_body (some (raw s)) = err failure
pair_of_body (some (pair_body r s)) =
    ok (record { support_request = request_value r; support_session = session_value s })
pair_of_body (some _) =
    ok (record { support_request = zero_request; support_session = zero_session })

session_of_body : Option Body → Res SupportSession
session_of_body none = err failure
session_of_body (some (raw s)) = err failure
session_of_body (some (session_body s)) = ok (session_value s)
session_of_body (some _) = ok zero_session

unfoldable pub decode_pair_replay : IdempotencyRecord → ℕ → Res SupportSessionPair
unfolding decode_stored_error pair_of_body
decode_pair_replay r success_status =
    if points_to r.response_status success_status
    then pair_of_body r.response_body
    else err (decode_stored_error r)

unfoldable pub decode_session_replay : IdempotencyRecord → ℕ → Res SupportSession
unfolding decode_stored_error session_of_body
decode_session_replay r success_status =
    if points_to r.response_status success_status
    then session_of_body r.response_body
    else err (decode_stored_error r)

abbrev pub report : {A : Type 0} → Res (Res A × List Event) × Db → Outcome A
report (err e, db) = (err e, db, [])
report (ok (err e, events), db) = (err e, db, [])
report (ok (ok a, events), db) = (ok a, db, events)

module _ (env : Env) where
  -- `pairEvents`.
  unfoldable pub pair_events :
      EventType → SupportRequest → EventType → SupportSession → Res (List Event)
  pair_events request_type request session_type session =
      Prelude.◌>>=◌ (env.new_id (ascii "event") 0) λ request_event_id.
        Prelude.◌>>=◌ (env.new_id (ascii "event") 1) λ session_event_id. ok (
          record {
            event_id = request_event_id;
            type = request_type;
            occurred_at = env.now;
            entity_id = request.id;
            revision = request.revision;
            content = request_data (request_snapshot request);
            audience = request_pair request;
          }
          ∷ record {
            event_id = session_event_id;
            type = session_type;
            occurred_at = env.now;
            entity_id = session.id;
            revision = session.revision;
            content = session_data (session_snapshot session);
            audience = request_pair request;
          }
          ∷ [])

  -- `sessionEvent`.
  unfoldable pub session_events : EventType → SupportSession → Res (List Event)
  session_events type session = Prelude.◌>>=◌ (env.new_id (ascii "event") 0) λ event_id. ok (
      record {
        event_id = event_id;
        type = type;
        occurred_at = env.now;
        entity_id = session.id;
        revision = session.revision;
        content = session_data (session_snapshot session);
        audience = session_pair session;
      }
      ∷ [])

  -- The end of every use case: the transaction, then its error, then the stored error, and only
  -- then `s.publish`, which tells no error to the caller.
  unfoldable pub conclude : {A : Type 0} → Tx (Res A × List Event) → Db → Outcome A
  unfolding transact
  conclude work db = report (transact (env.refuses Query.commit) work db)

  -- An error of the preparation ends the use case before its transaction.
  abbrev pub prepared : {P A : Type 0} → Res P → (P → Db → Outcome A) → Db → Outcome A
  prepared (err e) k db = (err e, db, [])
  prepared (ok p) k db = k p db

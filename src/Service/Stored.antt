-- ===== src/Service/Stored.antt =====
-- `GuideService.idempotent` of server/internal/service/guides.go: the answer of a use case is stored
-- under its key in the transaction that does the work.
pub mod Keeps
pub mod Begin
pub mod Retry
use mite.Prelude.{
  ℕ, Bool, true, false, Option, none, some, List, [], ◌∷◌, if◌then◌else◌, leb, Result, ok, err,
}
use mite.Prelude
use mite.Text.{Str, ascii}
use mite.Json.{Body, raw, error_body}
use mite.Domain.Errors.{
  Error, ErrorCode, Res, domain, operation, failure, fail, error_code_of, validation_error,
  unauthenticated, forbidden, not_found, invalid_state, revision_conflict, idempotency_key_reused,
  idempotency_request_in_progress, duplicate_active_request, material_conflict, file_too_large,
  insufficient_materials, internal_error, external_service_unavailable, other, no_rows,
}
use mite.Domain.User.{Actor}
use mite.Domain.Event.{Event}
use mite.Domain.Support.{Time}
use mite.Domain.Idempotency.{IdempotencyScope, IdempotencyRecord, new_idempotency_key}
use mite.Repository.{Db, Tx, Query, go_on, pure, lift, transact, ◌>>=◌}
use mite.Repository.Keys.{get_key, create_key, take_over_key, complete_key}
use mite.Service.Env.{Outcome}
use mite.Service.Idempotency.{Evaluation, evaluate_idempotency, new_in_progress_record}
use mite.Service.Session.Common.{idempotency_scope}

-- `translateRepositoryError`.
unfoldable pub translate_repository_error : Error → Error
translate_repository_error no_rows = domain not_found
translate_repository_error (domain code) = domain code
translate_repository_error (operation code request_id) = operation code request_id
translate_repository_error failure = domain internal_error

-- `persistableBusinessError`, of the code of an error.
unfoldable pub persistable : ErrorCode → Bool
persistable internal_error = false
persistable external_service_unavailable = false
persistable unauthenticated = false
persistable validation_error = false
persistable _ = true

-- `guideStatusForDomainCode`.
unfoldable pub guide_status : ErrorCode → ℕ
guide_status forbidden = 403
guide_status not_found = 404
guide_status invalid_state = 409
guide_status revision_conflict = 409
guide_status idempotency_key_reused = 409
guide_status idempotency_request_in_progress = 409
guide_status duplicate_active_request = 409
guide_status material_conflict = 409
guide_status file_too_large = 413
guide_status insufficient_materials = 422
guide_status external_service_unavailable = 503
guide_status validation_error = 400
guide_status unauthenticated = 401
guide_status _ = 500

-- The error that a stored body stands for: bytes that are no JSON are an error themselves, and a
-- document of another shape has an empty code.
unfoldable pub stored_failure : Body → Res Error
stored_failure (raw s) = err failure
stored_failure (error_body code request_id) = ok (operation code request_id)
stored_failure _ = ok (operation (other []) [])

-- `CommandMeta`.
pub record CommandMeta : Type 0 where
  pub actor : Actor
  pub key : Str
  pub request_id : Str

-- How the transaction of a use case ends: its result or its stored error, and the events.
abbrev pub Answer : Type 0 → Type 0
Answer A = Res A × List Event

-- The end of `idempotent`.
abbrev pub conclude : {A : Type 0} → Res (Answer A) × Db → Outcome A
conclude (err e, db) = (err (translate_repository_error e), db, [])
conclude (ok (err e, events), db) = (err e, db, [])
conclude (ok (ok a, events), db) = (ok a, db, events)

-- `case IdempotencyReplay`: what a record answers. A completed record has a status and a body, so
-- that its dereference holds.
abbrev pub replay_of : {A : Type 0} → (Body → Res A) → Option ℕ → Option Body → Res (Answer A)
replay_of decode (some status) (some body) =
    if leb 400 status
    then Prelude.◌>>=◌ (stored_failure body) (λ e. ok (err e, []))
    else Prelude.◌>>=◌ (decode body) (λ a. ok (ok a, []))
replay_of decode _ _ = err failure

unfoldable pub replayed : {A : Type 0} → (Body → Res A) → IdempotencyRecord → Res (Answer A)
unfolding stored_failure
replayed decode r = replay_of decode r.response_status r.response_body

-- `encode` writes the envelope of a result, and `decode` reads it.
module _ {A : Type 0} (encode : A → Body) (decode : Body → Res A) (refuses : Query → Bool)
    (now : Time) where
  module _ (scope : IdempotencyScope) where
    abbrev pub taken : Option IdempotencyRecord → Tx (Option IdempotencyRecord)
    taken none = lift (fail idempotency_request_in_progress)
    taken (some row) = pure none

    -- `switch evaluation.Decision`: the record to replay, or the key is held.
    abbrev pub on_decision : Str → Evaluation → Tx (Option IdempotencyRecord)
    on_decision hash (Evaluation.replay r) = pure (some r)
    on_decision hash Evaluation.start = lift (new_in_progress_record scope hash none now) >>= λ r.
        create_key refuses r >>= λ _. pure none
    on_decision hash (Evaluation.take_over r) =
        take_over_key refuses scope r.resource_id now >>= taken

    unfoldable pub begin_answer : Str → Tx (Option IdempotencyRecord)
    unfolding get_key create_key
    begin_answer hash = do
      row ← get_key refuses scope
      evaluation ← lift (evaluate_idempotency row hash now)
      on_decision hash evaluation

    -- An error of the work: it is stored, if it is one to be stored, and undoes nothing.
    unfoldable pub store_error : Str → ErrorCode → Tx (Answer A)
    unfolding persistable guide_status
    store_error request_id code =
        if persistable code
        then (complete_key refuses scope (guide_status code) (error_body code request_id) now
            >>= λ _. pure (err (operation code request_id), []))
        else lift (fail code)

    abbrev pub coded_error : Str → Option ErrorCode → Tx (Answer A)
    coded_error request_id none = lift (err failure)
    coded_error request_id (some code) = store_error request_id code

    -- What is stored once the work is done.
    unfoldable pub store_answer : Str → ℕ → Res (A × List Event) × Db → Res (Answer A) × Db
    unfolding store_error translate_repository_error
    store_answer request_id success (err e, db) =
        coded_error request_id (error_code_of (translate_repository_error e)) db
    store_answer request_id success (ok (a, events), db) =
        (complete_key refuses scope success (encode a) now >>= λ _. pure (ok a, events)) db

    abbrev pub on_begun : Str → ℕ → Tx (A × List Event) → Option IdempotencyRecord → Tx (Answer A)
    on_begun request_id success work (some r) db = (replayed decode r, db)
    on_begun request_id success work none db = store_answer request_id success (work db)

    -- The transaction of `idempotent`.
    unfoldable pub answer_work : Str → Str → ℕ → Tx (A × List Event) → Tx (Answer A)
    unfolding begin_answer replayed store_answer
    answer_work request_id hash success work =
        begin_answer hash >>= on_begun request_id success work

  -- `idempotent`.
  unfoldable pub idempotent : CommandMeta → Str → Str → ℕ → Tx (A × List Event) → Db → Outcome A
  unfolding answer_work
  idempotent meta path hash success work db = elim (new_idempotency_key meta.key) [
    | err e ↦ (err e, db, [])
    | ok key ↦ conclude (
        transact (refuses Query.commit)
          (answer_work (idempotency_scope meta.actor path key) meta.request_id hash success work)
          db)
  ]

-- ===== src/Service/Request/Change.antt =====
-- `UpdateSupportRequestAcknowledgement`, `CancelSupportRequest` and `GetSupportRequest` of
-- server/internal/service/artifact_support.go.
use mite.Prelude.{
  ℕ, Bool, true, false, ◌||◌, not, Option, none, some, List, [], ◌∷◌, ◌++◌, ltb, ◌==◌, ◌!=◌, is_nil,
  eq_nat, Result, ok, err, fail_if,
}
use mite.Prelude
use mite.Text.{Str, ascii, eq_str}
use mite.Domain.Errors.{
  Res, domain, failure, forbidden, validation_error, not_found, invalid_state, revision_conflict,
}
use mite.Domain.Enums.{
  Role, SupportRequestStatus, eq_support_request_status, SupportAcknowledgementKind,
  eq_support_acknowledgement_kind,
}
use mite.Domain.Status.{acknowledgement_kind_valid}
use mite.Domain.Value.{DomainId, new_id}
use mite.Domain.User.{UserPair, Actor}
use mite.Domain.Event.{EventType}
use mite.Domain.Support.{Time, SupportRequest}
use mite.Domain.Idempotency.{IdempotencyScope, IdempotencyRecord, new_idempotency_key}
use mite.Repository.{Db, Tx, Query, pure, lift, transact, ◌>>=◌}
use mite.Repository.Requests.{find_pair, lock_request_row, acknowledge_request, cancel_request}
use mite.Service.Env.{Env, Outcome, revision_payload}
use mite.Service.Deletion.{normalize_repository_error}
use mite.Service.Idempotency.{Evaluation}
use mite.Service.Session.Common.{idempotency_scope}
use mite.Service.Request.Common.{
  IdempotentSupportRequestResult, Ended, require_role, or_fail, stored_result, tell_request,
  report_request, acquire_idempotency, complete_request,
}

pub record UpdateSupportRequestAcknowledgementInput : Type 0 where
  pub kind : SupportAcknowledgementKind
  pub estimated_support_at : Option Time
  pub expected_revision : ℕ

-- The pair of the actor, where it is the pair of the request.
unfoldable pub owns : Option UserPair → SupportRequest → Bool
owns none request = false
owns (some pair) request =
    not (request.user_id != pair.user_id || request.family_id != pair.family_id)

-- The time that comes with an acknowledgement: a later one if it is scheduled, and none otherwise.
unfoldable pub time_fits : Time → SupportAcknowledgementKind → Option Time → Bool
time_fits now kind none = not (kind == SupportAcknowledgementKind.scheduled)
time_fits now kind (some t) = elim (kind == SupportAcknowledgementKind.scheduled) [
  | true ↦ ltb now t
  | false ↦ false
]

-- A completed record has a status and a body, so the dereference of `claim.ResponseStatus` holds.
unfoldable pub cancel_replay : IdempotencyRecord → Res IdempotentSupportRequestResult
cancel_replay r = elim r.response_status [
  | none ↦ err failure
  | some status ↦ elim r.response_body [
    | none ↦ err failure
    | some body ↦ ok (stored_result status body none)
  ]
]

module _ (env : Env) where
  -- The locked request of the actor's pair, pending and without a session, at the expected revision.
  unfoldable pub lock_pending : Actor → DomainId → ℕ → Tx SupportRequest
  unfolding lock_request_row find_pair owns
  lock_pending actor id expected = do
    row ← lock_request_row env.refuses id
    request ← lift (or_fail row not_found)
    pair ← find_pair env.refuses actor.id
    _ ← lift (fail_if (not (owns pair request)) (domain forbidden))
    _ ← lift (
        fail_if
          (request.status != SupportRequestStatus.pending
            || not (is_nil request.support_session_id))
          (domain invalid_state))
    _ ← lift (fail_if (request.revision != expected) (domain revision_conflict))
    pure request

  unfoldable pub acknowledge_work :
      Actor → DomainId → UpdateSupportRequestAcknowledgementInput → Tx SupportRequest
  unfolding lock_pending acknowledge_request
  acknowledge_work actor id input = do
    request ← lock_pending actor id input.expected_revision
    acknowledge_request env.refuses (record request {
      acknowledged_at = some env.now;
      acknowledgement_kind = some input.kind;
      estimated_support_at = input.estimated_support_at;
      updated_at = env.now;
    })

  -- The checks before the transaction.
  unfoldable pub prepare_acknowledgement :
      Actor → DomainId → UpdateSupportRequestAcknowledgementInput → Res (Unit {0})
  unfolding require_role acknowledgement_kind_valid time_fits
  prepare_acknowledgement actor id input = Prelude.◌>>=◌ (require_role actor Role.family) λ _.
      Prelude.◌>>=◌ (new_id id) λ _.
        Prelude.◌>>=◌
          (fail_if (not (acknowledgement_kind_valid input.kind) || ltb input.expected_revision 1)
            (domain validation_error))
          λ _.
            fail_if (not (time_fits env.now input.kind input.estimated_support_at))
              (domain validation_error)

  abbrev pub report_acknowledged : Res SupportRequest × Db → Outcome SupportRequest
  report_acknowledged (err e, db) = (err (normalize_repository_error e), db, [])
  report_acknowledged (ok r, db) = (
    ok r,
    db,
    tell_request (env.new_id (ascii "evt") 0) EventType.support_request_updated r.updated_at r,
  )

  -- `UpdateSupportRequestAcknowledgement`.
  unfoldable pub acknowledge :
      Actor → DomainId → UpdateSupportRequestAcknowledgementInput → Db → Outcome SupportRequest
  unfolding prepare_acknowledgement acknowledge_work normalize_repository_error
  acknowledge actor id input db = elim (prepare_acknowledgement actor id input) [
    | err e ↦ (err e, db, [])
    | ok _ ↦
        report_acknowledged
          (transact (env.refuses Query.commit) (acknowledge_work actor id input) db)
  ]

  unfoldable pub cancel_fresh : Actor → DomainId → ℕ → IdempotencyScope → Tx Ended
  unfolding lock_pending cancel_request complete_request
  cancel_fresh actor id expected scope = do
    request ← lock_pending actor id expected
    cancelled ←
        cancel_request env.refuses
          (record request { status = SupportRequestStatus.cancelled; updated_at = env.now })
    complete_request env scope 200 env.now cancelled

  abbrev pub on_cancel_claim : Actor → DomainId → ℕ → IdempotencyScope → Evaluation → Tx Ended
  on_cancel_claim actor id expected scope (Evaluation.replay claim) =
      lift (cancel_replay claim) >>= λ result. pure (result, none)
  on_cancel_claim actor id expected scope Evaluation.start = cancel_fresh actor id expected scope
  on_cancel_claim actor id expected scope (Evaluation.take_over claim) =
      cancel_fresh actor id expected scope

  -- The transaction of `CancelSupportRequest`.
  unfoldable pub cancel_work : Actor → DomainId → ℕ → IdempotencyScope → Str → Tx Ended
  unfolding acquire_idempotency cancel_fresh cancel_replay
  cancel_work actor id expected scope hash =
      acquire_idempotency env scope hash >>= on_cancel_claim actor id expected scope

  unfoldable pub prepare_cancel : Actor → Str → DomainId → ℕ → Res Str
  unfolding require_role
  prepare_cancel actor raw_key id expected = Prelude.◌>>=◌ (require_role actor Role.user) λ _.
      Prelude.◌>>=◌ (new_id id) λ _.
        Prelude.◌>>=◌ (fail_if (ltb expected 1) (domain validation_error))
          λ _. new_idempotency_key raw_key

  -- `CancelSupportRequest`.
  unfoldable pub cancel_support_request :
      Actor → Str → DomainId → ℕ → Db → Outcome IdempotentSupportRequestResult
  unfolding prepare_cancel cancel_work normalize_repository_error
  cancel_support_request actor raw_key id expected db =
      elim (prepare_cancel actor raw_key id expected) [
        | err e ↦ (err e, db, [])
        | ok key ↦
            report_request (env.new_id (ascii "evt") 0) EventType.support_request_updated
              (λ r. r.updated_at)
              (transact (env.refuses Query.commit)
                (cancel_work actor id expected
                  (idempotency_scope actor (ascii "/v1/support-requests/" ++ id ++ ascii "/cancel")
                    key)
                  (env.digest (revision_payload expected)))
                db)
      ]

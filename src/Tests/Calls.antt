-- ===== src/Tests/Calls.antt =====
-- The calls between a user and a family, run, and sent again.
use mite.Prelude.{ℕ, ◌≡◌, refl, arith, Option, none, some, [], ◌∷◌, ok, err}
use mite.Text.{ascii, str_eq, runes, all_space}
use mite.Domain.Errors.{operation, revision_conflict}
use mite.Domain.Enums.{GuideDecision, SupportSessionStatus}
use mite.Domain.Status.{decision_valid}
use mite.Domain.Value.{new_id}
use mite.Domain.User.{authorize}
use mite.Domain.Support.{
  new_ringing_session, validate_expected_revision, validate_accept, validate_resolve,
  SupportSession,
}
use mite.Domain.Idempotency.{
  IdempotencyScope, new_idempotency_key, new_request_hash, scope_validate, record_validate,
}
use mite.Repository.Sessions.{
  get_request, get_session, lock_request, lock_session, create_session, attach_session,
  activate_request, activate_session, resolve_request, resolve_session,
}
use mite.Repository.Keys.{begin_key, lock_key, complete_key}
use mite.Service.Env.{Outcome}
use mite.Service.Idempotency.{evaluate_idempotency}
use mite.Service.Snapshot.{request_value, session_value, request_snapshot, session_snapshot}
use mite.Service.Session.Common.{
  SupportSessionPair, decode_pair_replay, idempotency_scope, session_pair,
}
use mite.Service.Session.Held.{begin_session_key, resume_key, reject}
use mite.Service.Session.Pair.{accept, resolve, mutate_pair_work, accept_change, resolve_change}
use mite.Service.Session.Call.{call}
use mite.Service.Session.Effects.{accept_change-IsChange}
use mite.Service.Session.Answer.{Ends}
use mite.Service.Session.Mutate.{Mutated, mutate_pair_work-Ends, mutate_pair_work-retry}
use mite.Tests.Sample.{
  grandmother, daughter, env, waiting, ringing, supporting, full_consent, session,
  supported_request, active_session, some_hash,
}

-- What a run of the calls computes with.
unfoldable pub machinery : Unit {0}
unfolding call accept resolve get_request get_session lock_request lock_session create_session
    attach_session activate_request activate_session resolve_request resolve_session begin_key
    lock_key complete_key str_eq runes all_space new_id new_idempotency_key authorize
    begin_session_key resume_key reject validate_expected_revision validate_accept validate_resolve
    new_ringing_session evaluate_idempotency decode_pair_replay decision_valid record_validate
    new_request_hash scope_validate request_value session_value request_snapshot session_snapshot
machinery = tt

abbrev pub called : Outcome SupportSessionPair
called = call env waiting daughter (ascii "r") 1 (ascii "k") (ascii "q") waiting

ringing_row : Option SupportSession → Option (SupportSessionStatus × ℕ)
ringing_row none = none
ringing_row (some s) = some (s.status, s.revision)

-- The family calls: a session rings, under the id that was drawn for it.
calls : ringing_row (called.1.sessions (ascii "session0")) ≡ some (SupportSessionStatus.ringing, 1)
unfolding machinery ringing_row
calls = refl

abbrev pub answered : Outcome SupportSessionPair
answered = accept env ringing grandmother (ascii "s") 1 full_consent (ascii "k") (ascii "q") ringing

-- The user answers the call.
answers :
    answered.0
    ≡ ok (record { support_request = supported_request; support_session = active_session })
unfolding machinery
answers = refl

-- The same request, sent again with another id, gets the same answer and tells nobody.
answers_again :
    accept env ringing grandmother (ascii "s") 1 full_consent (ascii "k") (ascii "z") answered.1
    ≡ (answered.0, answered.1, [])
unfolding machinery
answers_again = refl

-- Another request with an old revision is refused, and the refusal is stored and given again.
abbrev late : Outcome SupportSessionPair
late =
    accept env supporting grandmother (ascii "s") 1 full_consent (ascii "l") (ascii "q") supporting

late_conflict : late.0 ≡ err (operation revision_conflict (ascii "q"))
unfolding machinery
late_conflict = refl

abbrev accept_scope : IdempotencyScope
accept_scope = idempotency_scope grandmother (ascii "/v1/support-sessions/s/accept") (ascii "k")

valid_scope : scope_validate accept_scope ≡ ok tt
unfolding machinery
valid_scope = refl

pub valid_hash : new_request_hash some_hash ≡ ok some_hash
unfolding machinery
valid_hash = refl

answered_work :
    mutate_pair_work env grandmother session 1 accept_scope some_hash
      (ascii "q")
      200
      (accept_change env full_consent)
      ringing
    ≡ (ok (answered.0, answered.2), answered.1)
unfolding machinery
answered_work = refl

may_answer : authorize (session_pair active_session) grandmother (grandmother.role ∷ []) ≡ ok tt
unfolding machinery
may_answer = refl

mutate_pair_work-Ends_example :
    Ends
      (λ r. decode_pair_replay r 200)
      accept_scope
      some_hash
      (Mutated env grandmother session 1 (accept_change env full_consent) ringing)
      ringing
      (mutate_pair_work env grandmother session 1 accept_scope some_hash
        (ascii "q")
        200
        (accept_change env full_consent)
        ringing)
mutate_pair_work-Ends_example =
    mutate_pair_work-Ends env accept_scope some_hash (ascii "q") 200 (omega arith)
      (accept_change env full_consent) (accept_change-IsChange env full_consent) grandmother session
      1 ringing valid_scope valid_hash

-- Sent again, a while later, with another revision.
mutate_pair_work-retry_example :
    mutate_pair_work
      (record env { now = 999 })
      grandmother
      session
      7
      accept_scope
      some_hash
      (ascii "z")
      200
      (resolve_change env GuideDecision.skip)
      answered.1
    ≡ (ok (answered.0, []), answered.1)
mutate_pair_work-retry_example =
    mutate_pair_work-retry env (record env { now = 999 }) accept_scope some_hash (ascii "q") 200
      (omega arith) (accept_change env full_consent) (resolve_change env GuideDecision.skip)
      (accept_change-IsChange env full_consent) grandmother session 1 ringing answered.1 answered.1
      answered.0 answered.2 valid_scope valid_hash answered_work refl (λ query. refl)
      supported_request active_session (unfold machinery in refl) (unfold machinery in refl)
      may_answer (ascii "z") 7

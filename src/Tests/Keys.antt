-- ===== src/Tests/Keys.antt =====
-- The theorems on idempotency records, snapshots and tokens, at small inputs.
use mite.Prelude.{◌+◌, ◌≤◌, ◌≡◌, refl, none, some, ok, ltb, ◌==◌, if◌then◌else◌, ◌++◌}
use mite.Text.{Str, ascii, str_eq, eq_str, runes, all_space}
use mite.Json.{Body}
use mite.Domain.Errors.{fail, idempotency_key_reused, idempotency_request_in_progress}
use mite.Domain.Enums.{Role, IdempotencyStatus}
use mite.Domain.Value.{new_id}
use mite.Domain.Idempotency.{
  IdempotencyScope, IdempotencyRecord, idempotency_lease, new_request_hash, record_validate,
  scope_validate, new_idempotency_key, idempotency_retention,
}
use mite.LiveKit.{TokenRequest, Token, JwtClaims, JwtIssuer, issue}
use mite.LiveKit.Grants.{Grants, issue-Grants}
use mite.Service.Idempotency.{
  take_over, replay, evaluate_idempotency, new_in_progress_record, complete_record,
}
use mite.Service.Idempotency.Laws.{new_in_progress_record-lease, complete_record-replay}
use mite.Service.Snapshot.{session_snapshot}
use mite.Service.Session.Common.{idempotency_scope}
use mite.Tests.Sample.{grandmother, session, some_hash}

abbrev scope : IdempotencyScope
scope = idempotency_scope grandmother (ascii "/v1/support-sessions/s/accept") (ascii "k")

abbrev begun : IdempotencyRecord
begun = record {
  scope = scope;
  request_hash = some_hash;
  status = IdempotencyStatus.in_progress;
  resource_id = some (ascii "s");
  response_status = none;
  response_body = none;
  lease_expires_at = some (100 + idempotency_lease);
  created_at = 100;
  completed_at = none;
  expires_at = none;
}

abbrev finished : IdempotencyRecord
finished = record begun {
  status = IdempotencyStatus.completed;
  response_status = some 200;
  response_body = some (Body.session_body (session_snapshot session));
  lease_expires_at = none;
  completed_at = some 150;
  expires_at = some (150 + idempotency_retention);
}

begins : new_in_progress_record scope some_hash (some (ascii "s")) 100 ≡ ok begun
unfolding new_in_progress_record record_validate scope_validate new_request_hash new_idempotency_key
    new_id str_eq runes all_space
begins = refl

-- A second request, a nanosecond before the lease is over.
new_in_progress_record-lease_example : evaluate_idempotency (some begun) some_hash 120000000099 ≡ (
    if ltb 120000000099 (100 + 120000000000)
    then fail idempotency_request_in_progress
    else ok (take_over begun))
new_in_progress_record-lease_example =
    new_in_progress_record-lease scope some_hash (some (ascii "s")) 100 120000000099 begun begins

finishes :
    complete_record begun 200 (Body.session_body (session_snapshot session)) 150 ≡ ok finished
unfolding complete_record record_validate scope_validate new_request_hash new_idempotency_key new_id
    str_eq runes all_space
finishes = refl

valid_hash : new_request_hash some_hash ≡ ok some_hash
unfolding new_request_hash str_eq
valid_hash = refl

complete_record-replay_example :
    (finished.response_status ≡ some 200)
    × (finished.response_body ≡ some (Body.session_body (session_snapshot session)))
    × (finished.scope ≡ scope)
    × (evaluate_idempotency (some finished) some_hash 500
        ≡ (if some_hash == some_hash then ok (replay finished) else fail idempotency_key_reused))
complete_record-replay_example =
    complete_record-replay begun finished 200 (Body.session_body (session_snapshot session))
      some_hash 150 500 finishes valid_hash

abbrev sign : JwtClaims → Str → Str
sign claims secret = claims.identity ++ secret

abbrev live_kit : JwtIssuer
live_kit = record { server_url = ascii "wss"; api_key = ascii "a"; secret = ascii "x" }

abbrev asked : TokenRequest
asked = record {
  room_name = ascii "mite-s";
  participant_identity = ascii "user:u";
  role = Role.user;
  expires_at = 62135597000000000000;
}

abbrev given : Token
given = record {
  server_url = ascii "wss";
  value = ascii "user:ux";
  expires_at = 62135597000000000000;
}

issues : issue sign 62135596900000000000 live_kit asked ≡ ok given
unfolding issue all_space runes
issues = refl

issue-Grants_example :
    (c : JwtClaims) × (given.value ≡ sign c (ascii "x"))
    × Grants Role.user c
    × (c.video.room ≡ ascii "mite-s")
    × (c.identity ≡ ascii "user:u")
    × (c.subject ≡ ascii "user:u")
    × (c.issuer ≡ ascii "a")
    × (c.issued_at ≡ 100)
    × (c.not_before ≡ 100)
    × (c.expires_at ≡ 200)
    × (c.issued_at ≤ c.expires_at)
    × (given.expires_at ≡ 62135597000000000000)
    × (given.server_url ≡ ascii "wss")
issue-Grants_example = issue-Grants sign 62135596900000000000 live_kit asked given issues

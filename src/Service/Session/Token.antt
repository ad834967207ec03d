-- ===== src/Service/Session/Token.antt =====
-- `Get` and `CreateLiveKitToken` of server/internal/service/support_sessions.go. The issuer is
-- `none` where the program has no `livekit.TokenIssuer`.
pub mod Access
use mite.Prelude.{
  ℕ, ◌+◌, not, Option, none, some, [], ◌∷◌, ◌++◌, if◌then◌else◌, ◌==◌, ok, err, ◌>>=◌,
}
use mite.Text.{Str, ascii}
use mite.Domain.Errors.{Res, fail, invalid_state, external_service_unavailable}
use mite.Domain.Enums.{Role, eq_role}
use mite.Domain.Value.{DomainId, new_id}
use mite.Domain.User.{Actor, actor_validate, authorize}
use mite.Domain.Support.{Time, SupportSession, allows_live_kit}
use mite.LiveKit.{TokenRequest, Token}
use mite.Repository.{Db}
use mite.Repository.Sessions.{get_session}
use mite.Service.Env.{Env}
use mite.Service.Session.Common.{session_pair}

-- 30 minutes in nanoseconds.
abbrev pub live_kit_token_ttl : ℕ
live_kit_token_ttl = 1800000000000

pub record LiveKitConnection : Type 0 where
  pub server_url : Str
  pub room_name : Str
  pub participant_identity : Str
  pub token : Str
  pub expires_at : Time

abbrev pub identity_of : Actor → Str
identity_of actor =
    if actor.role == Role.family then ascii "family:" ++ actor.id else ascii "user:" ++ actor.id

-- `WrapError(CodeExternalServiceUnavailable, …)` around an error of the issuer.
abbrev pub connection_of : SupportSession → Str → Time → Res Token → Res LiveKitConnection
connection_of session identity expires_at (err e) = fail external_service_unavailable
connection_of session identity expires_at (ok token) = ok (record {
  server_url = token.server_url;
  room_name = session.live_kit_room_name;
  participant_identity = identity;
  token = token.value;
  expires_at = expires_at;
})

abbrev pub request_of : Env → Actor → SupportSession → TokenRequest
request_of env actor session = record {
  room_name = session.live_kit_room_name;
  participant_identity = identity_of actor;
  role = actor.role;
  expires_at = env.now + live_kit_token_ttl;
}

-- The part after the session is authorized.
abbrev pub connect :
    Env → Option (TokenRequest → Res Token) → Actor → SupportSession → Res LiveKitConnection
connect env none actor session = fail external_service_unavailable
connect env (some issuer) actor session =
    connection_of session (identity_of actor) (env.now + live_kit_token_ttl)
      (issuer (request_of env actor session))

-- `Get`.
unfoldable pub get : Env → Actor → Str → Db → Res SupportSession
unfolding actor_validate
get env actor raw_id db = do
  _ ← actor_validate actor
  session ← (get_session env.refuses raw_id db).0
  _ ← authorize (session_pair session) actor (Role.user ∷ Role.family ∷ [])
  ok session

-- `validateActorAndID`.
unfoldable pub validate_actor_and_id : Actor → Str → Res DomainId
unfolding actor_validate
validate_actor_and_id actor raw_id = do _ ← actor_validate actor; new_id raw_id

unfoldable pub create_live_kit_token :
    Env → Option (TokenRequest → Res Token) → Actor → Str → Db → Res LiveKitConnection
unfolding validate_actor_and_id
create_live_kit_token env issuer actor raw_session_id db = do
  session_id ← validate_actor_and_id actor raw_session_id
  session ← (get_session env.refuses session_id db).0
  _ ← authorize (session_pair session) actor (Role.user ∷ Role.family ∷ [])
  if not (allows_live_kit session.status)
      then fail invalid_state
      else connect env issuer actor session

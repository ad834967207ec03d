-- ===== src/Service/Session/Token/Access.antt =====
-- Who reads a session and who joins its room (server/internal/service/support_sessions.go).
use mite.Prelude.{
  ◌+◌, ◌≡◌, ◌∙◌, sym, ap, inl, inr, true, false, not, some, [], ◌∷◌, arith, ok, err, Bool-cases,
  Result-cases, if◌then◌else◌, >>=-eq-ok,
}
use mite.Text.{Str}
use mite.Domain.Errors.{Error, fail, invalid_state}
use mite.Domain.Enums.{Role}
use mite.Domain.Value.{DomainId, new_id}
use mite.Domain.User.{Actor, authorize}
use mite.Domain.User.Authorize.{IsMember, authorize_iff}
use mite.Domain.Support.{Time, SupportSession, allows_live_kit}
use mite.LiveKit.{Token, JwtClaims, JwtIssuer, issue}
use mite.LiveKit.Grants.{Grants, issue-Grants}
use mite.Repository.{Db}
use mite.Repository.Sessions.{get_session}
use mite.Service.Env.{Env}
use mite.Service.Session.Common.{session_pair}
use mite.Service.Session.Token.{
  LiveKitConnection, live_kit_token_ttl, request_of, connect, validate_actor_and_id,
  create_live_kit_token,
}

get_session-found :
    (env : Env) (id : DomainId) (db : Db) (s : SupportSession)
    → (get_session env.refuses id db).0 ≡ ok s
    → db.sessions id ≡ some s
unfolding get_session
get_session-found env id db s h = ground arith

validated_id :
    (actor : Actor) (raw_id : Str) (id : DomainId)
    → validate_actor_and_id actor raw_id ≡ ok id
    → id ≡ raw_id
unfolding validate_actor_and_id new_id
validated_id actor raw_id id h = ground arith

-- What a token gives, if the session's status allows one.
connect_lem :
    (env : Env) (sign : JwtClaims → Str → Str) (issued : Time) (i : JwtIssuer) (actor : Actor)
    (s : SupportSession) (c : LiveKitConnection)
    → (if not (allows_live_kit s.status)
        then fail invalid_state
        else connect env (some (issue sign issued i)) actor s)
      ≡ ok c
    → (allows_live_kit s.status ≡ true)
      × (c.room_name ≡ s.live_kit_room_name)
      × (c.expires_at ≡ env.now + live_kit_token_ttl)
      × (k : JwtClaims) × (c.token ≡ sign k i.secret)
      × Grants actor.role k
      × (k.video.room ≡ s.live_kit_room_name)
      × (k.identity ≡ c.participant_identity)
connect_lem env sign issued i actor s c h = elim (Bool-cases (allows_live_kit s.status)) [
  | inr n ↦ absurd (refused n)
  | inl n ↦ elim (Result-cases (issue sign issued i (request_of env actor s))) [
    | inl (e, p) ↦ absurd (failed n e p)
    | inr (t, p) ↦ issued_token n t p
  ]
]
  where
    refused : allows_live_kit s.status ≡ false → ⊥
    refused n = ground arith

    failed :
        allows_live_kit s.status ≡ true
        → (e : Error) → issue sign issued i (request_of env actor s) ≡ err e
        → ⊥
    failed n e p = ground arith

    issued_token :
        allows_live_kit s.status ≡ true
        → (t : Token) → issue sign issued i (request_of env actor s) ≡ ok t
        → (allows_live_kit s.status ≡ true)
          × (c.room_name ≡ s.live_kit_room_name)
          × (c.expires_at ≡ env.now + live_kit_token_ttl)
          × (k : JwtClaims) × (c.token ≡ sign k i.secret)
          × Grants actor.role k
          × (k.video.room ≡ s.live_kit_room_name)
          × (k.identity ≡ c.participant_identity)
    issued_token n t p =
        let (k, value, grant, room, identity, _, _, _, _, _, _, _, _) =
          issue-Grants sign issued i (request_of env actor s) t p in
        (n, ground arith, ground arith, k, ground arith, grant, room, ground arith)

-- Who gets a connection is the member of the session that the actor's role names, the session's
-- status allows a call, and the token is the signature of claims for the room of the session with
-- the grant of that role; the connection expires half an hour after it is asked for.
pub create_live_kit_token-Grants :
    (env : Env) (sign : JwtClaims → Str → Str) (issued : Time) (i : JwtIssuer) (actor : Actor)
    (raw_id : Str) (db : Db) (c : LiveKitConnection)
    → create_live_kit_token env (some (issue sign issued i)) actor raw_id db ≡ ok c
    → (s : SupportSession) × (db.sessions raw_id ≡ some s)
      × IsMember (session_pair s) actor
      × (allows_live_kit s.status ≡ true)
      × (c.room_name ≡ s.live_kit_room_name)
      × (c.expires_at ≡ env.now + live_kit_token_ttl)
      × (k : JwtClaims) × (c.token ≡ sign k i.secret)
      × Grants actor.role k
      × (k.video.room ≡ s.live_kit_room_name)
      × (k.identity ≡ c.participant_identity)
unfolding create_live_kit_token
create_live_kit_token-Grants env sign issued i actor raw_id db c h =
    let (id, valid, h1) = >>=-eq-ok (validate_actor_and_id actor raw_id) _ h in
    let (s, found, h2) = >>=-eq-ok (get_session env.refuses id db).0 _ h1 in
    let (_, may, h3) =
      >>=-eq-ok (authorize (session_pair s) actor (Role.user ∷ Role.family ∷ [])) _ h2 in
    let at =
      ap db.sessions (sym (validated_id actor raw_id id valid))
      ∙ get_session-found env id db s found in
    let member = ((authorize_iff (session_pair s) actor (Role.user ∷ Role.family ∷ [])).0 may).1 in
    let (allowed, room, expiry, k, value, grant, inside, identity) =
      connect_lem env sign issued i actor s c h3 in
    (s, at, member, allowed, room, expiry, k, value, grant, inside, identity)

-- ===== src/Tests/Token.antt =====
-- A session is read and its room is joined.
use mite.Prelude.{◌+◌, ◌≡◌, refl, ◌++◌, true, some, ok}
use mite.Text.{Str, ascii, eq_str}
use mite.Domain.User.Authorize.{IsMember}
use mite.Domain.Support.{allows_live_kit, SupportSession}
use mite.LiveKit.{JwtIssuer, JwtClaims, issue}
use mite.LiveKit.Grants.{Grants}
use mite.Service.Session.Common.{session_pair}
use mite.Service.Session.Token.{create_live_kit_token, LiveKitConnection, live_kit_token_ttl}
use mite.Service.Session.Token.Access.{create_live_kit_token-Grants}
use mite.Tests.Sample.{daughter, env, supporting}
use mite.Tests.Calls.{machinery}

abbrev sign : JwtClaims → Str → Str
sign claims secret = claims.issuer ++ claims.identity ++ secret

abbrev live_kit : JwtIssuer
live_kit = record { server_url = ascii "wss"; api_key = ascii "a"; secret = ascii "x" }

abbrev connection : LiveKitConnection
connection = record {
  server_url = ascii "wss";
  room_name = ascii "mite-s";
  participant_identity = ascii "family:f";
  token = ascii "afamily:fx";
  expires_at = 100 + live_kit_token_ttl;
}

connected :
    create_live_kit_token env (some (issue sign 100 live_kit)) daughter (ascii "s") supporting
    ≡ ok connection
unfolding machinery create_live_kit_token issue allows_live_kit
connected = refl

create_live_kit_token-Grants_example :
    (s : SupportSession) × (supporting.sessions (ascii "s") ≡ some s)
    × IsMember (session_pair s) daughter
    × (allows_live_kit s.status ≡ true)
    × (connection.room_name ≡ s.live_kit_room_name)
    × (connection.expires_at ≡ 100 + live_kit_token_ttl)
    × (k : JwtClaims) × (connection.token ≡ sign k (ascii "x"))
    × Grants daughter.role k
    × (k.video.room ≡ s.live_kit_room_name)
    × (k.identity ≡ connection.participant_identity)
create_live_kit_token-Grants_example =
    create_live_kit_token-Grants env sign 100 live_kit daughter (ascii "s") supporting connection
      connected

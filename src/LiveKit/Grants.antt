-- ===== src/LiveKit/Grants.antt =====
-- What a token of server/internal/livekit/jwt_issuer.go allows.
use mite.Prelude.{◌-◌, ◌/◌, ◌≤◌, ◌≡◌, ◌⊎◌, true, false, [], ◌∷◌, arith, ok}
use mite.Text.{Str, ascii}
use mite.Domain.Enums.{Role, eq_role}
use mite.Domain.Support.{Time}
use mite.LiveKit.{TokenRequest, Token, JwtClaims, JwtIssuer, claims_of, issue}

-- Claims for a user, who may show the screen and send no markings, or for a family, who may send
-- markings and show no screen; both speak, and both listen.
abbrev pub Grants : Role → JwtClaims → Type 0
Grants role c =
    (((role ≡ Role.user)
        × (c.video.can_publish_data ≡ false)
        × (c.video.can_publish_sources ≡ ascii "microphone" ∷ ascii "screen_share" ∷ []))
      ⊎ ((role ≡ Role.family)
          × (c.video.can_publish_data ≡ true)
          × (c.video.can_publish_sources ≡ ascii "microphone" ∷ [])))
    × (c.video.room_join ≡ true)
    × (c.video.can_publish ≡ true)
    × (c.video.can_subscribe ≡ true)

-- An issued token is the signature of claims for the room, the identity and the role that were
-- asked for, with that role's grant, under the API key and for the server of the issuer. The signed
-- claims are issued and valid from now, and expire when it was asked for, both in seconds since
-- 1970, and the expiry is not before the time of issue; the token carries the expiry asked for.
pub issue-Grants :
    (sign : JwtClaims → Str → Str) (now : Time) (i : JwtIssuer) (request : TokenRequest) (t : Token)
    → issue sign now i request ≡ ok t
    → (c : JwtClaims) × (t.value ≡ sign c i.secret)
      × Grants request.role c
      × (c.video.room ≡ request.room_name)
      × (c.identity ≡ request.participant_identity)
      × (c.subject ≡ request.participant_identity)
      × (c.issuer ≡ i.api_key)
      × (c.issued_at ≡ now / 1000000000 - 62135596800)
      × (c.not_before ≡ now / 1000000000 - 62135596800)
      × (c.expires_at ≡ request.expires_at / 1000000000 - 62135596800)
      × (c.issued_at ≤ c.expires_at)
      × (t.expires_at ≡ request.expires_at)
      × (t.server_url ≡ i.server_url)
unfolding issue
issue-Grants sign now i request t h = (
  claims_of now i request,
  ground arith,
  ground arith,
  ground arith,
  ground arith,
  ground arith,
  ground arith,
  ground arith,
  ground arith,
  ground arith,
  ground arith,
  ground arith,
  ground arith,
)

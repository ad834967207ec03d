-- ===== src/LiveKit.antt =====
-- server/internal/livekit: the tokens with which a participant joins the room of a call. How the
-- claims are written as JSON, in base64, and signed with HMAC-SHA256 is the argument `sign` of
-- `issue`; it takes the claims and the secret.
pub mod Grants
use mite.Prelude.{
  ℕ, ◌-◌, ◌/◌, Bool, true, ◌&&◌, ◌||◌, not, List, [], ◌∷◌, ◌++◌, if◌then◌else◌, ltb, ◌==◌, ◌!=◌, ok,
  err,
}
use mite.Text.{Str, ascii, is_blank}
use mite.Domain.Errors.{Res, failure}
use mite.Domain.Enums.{Role, eq_role}
use mite.Domain.Support.{Time}

pub record TokenRequest : Type 0 where
  pub room_name : Str
  pub participant_identity : Str
  pub role : Role
  pub expires_at : Time

pub record Token : Type 0 where
  pub server_url : Str
  pub value : Str
  pub expires_at : Time

pub record VideoGrant : Type 0 where
  pub room_join : Bool
  pub room : Str
  pub can_publish : Bool
  pub can_subscribe : Bool
  pub can_publish_data : Bool
  pub can_publish_sources : List Str

pub record JwtClaims : Type 0 where
  pub issuer : Str
  pub subject : Str
  pub issued_at : ℕ
  pub not_before : ℕ
  pub expires_at : ℕ
  pub identity : Str
  pub video : VideoGrant

pub record JwtIssuer : Type 0 where
  pub server_url : Str
  pub api_key : Str
  pub secret : Str

unfoldable pub new_jwt_issuer : Str → Str → Str → Res JwtIssuer
new_jwt_issuer server_url api_key secret =
    if is_blank server_url || is_blank api_key || is_blank secret
    then err failure
    else ok (record { server_url = server_url; api_key = api_key; secret = secret })

-- `time.Time.Unix` from 1970 on: whole seconds, and the epoch is so many seconds after the zero time.
abbrev pub unix : Time → ℕ
unix t = t / 1000000000 - 62135596800

-- The `sources` and the claims that `Issue` puts together.
unfoldable pub publish_sources : Role → List Str
publish_sources role =
    if role == Role.user
    then (ascii "microphone" ∷ []) ++ ascii "screen_share" ∷ []
    else ascii "microphone" ∷ []

unfoldable pub claims_of : Time → JwtIssuer → TokenRequest → JwtClaims
unfolding publish_sources
claims_of now i request = record {
  issuer = i.api_key;
  subject = request.participant_identity;
  issued_at = unix now;
  not_before = unix now;
  expires_at = unix request.expires_at;
  identity = request.participant_identity;
  video = record {
    room_join = true;
    room = request.room_name;
    can_publish = true;
    can_subscribe = true;
    can_publish_data = request.role == Role.family;
    can_publish_sources = publish_sources request.role;
  };
}

unfoldable pub issue : (JwtClaims → Str → Str) → Time → JwtIssuer → TokenRequest → Res Token
unfolding claims_of
issue sign now i request =
    if is_blank request.room_name || is_blank request.participant_identity
    then err failure
    else if request.role != Role.user && request.role != Role.family
    then err failure
    else if not (ltb now request.expires_at)
    then err failure
    else ok (record {
      server_url = i.server_url;
      value = sign (claims_of now i request) i.secret;
      expires_at = request.expires_at;
    })

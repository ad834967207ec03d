-- ===== src/Domain/Idempotency.antt =====
-- server/internal/domain/idempotency.go: keys, request hashes and the records of requests.
use mite.Prelude.{
  ℕ, zero, suc, ◌+◌, ◌*◌, ◌/◌, ◌%◌, ◌^◌, Bool, true, false, ◌&&◌, ◌||◌, not, Option, none, some,
  List, [], ◌∷◌, ◌++◌, map, if◌then◌else◌, ltb, leb, ◌==◌, ◌!=◌, eq_nat, is_nil, length, ok, err,
  ◌>>=◌, Eq, ◌≡◌, ◌↔◌, arith,
}
use mite.Text.{Str, eq_str, str_eq, str_eq_iff, ascii, is_blank}
use mite.Json.{Body, is_empty}
use mite.Domain.Errors.{Res, fail, validation_error, internal_error}
use mite.Domain.Enums.{IdempotencyStatus}
use mite.Domain.Value.{DomainId, new_id}
use mite.Domain.Support.{Time}

-- 24 hours and 2 minutes in nanoseconds.
abbrev pub idempotency_retention : ℕ
idempotency_retention = 86400000000000

abbrev pub idempotency_lease : ℕ
idempotency_lease = 120000000000

-- The loop over the bytes of a key: printable ASCII.
unfoldable pub all_printable : Str → Bool
all_printable [] = true
all_printable (char ∷ rest) = not (ltb char 0x20 || ltb 0x7e char) && all_printable rest

unfoldable pub new_idempotency_key : Str → Res Str
unfolding all_printable
new_idempotency_key value =
    if ltb (length value) 1 || ltb 128 (length value)
    then fail validation_error
    else if not (all_printable value)
    then fail validation_error
    else ok value

-- `hex.DecodeString` accepts the digits of both cases.
abbrev is_hex : ℕ → Bool
is_hex c = (leb 0x30 c && leb c 0x39) || (leb 0x41 c && leb c 0x46) || (leb 0x61 c && leb c 0x66)

all_hex : Str → Bool
all_hex [] = true
all_hex (c ∷ s) = is_hex c && all_hex s

-- `strings.ToLower` on ASCII.
abbrev lower : ℕ → ℕ
lower c = if leb 0x41 c && leb c 0x5a then c + 0x20 else c

unfoldable pub new_request_hash : Str → Res Str
unfolding all_hex
new_request_hash value =
    if length value != 64
    then fail validation_error
    else if not (all_hex value) || map lower value != value
    then fail validation_error
    else ok value

pub record IdempotencyScope : Type 0 where
  pub actor_id : DomainId
  pub method : Str
  pub path : Str
  pub key : Str

abbrev scope_eq : IdempotencyScope → IdempotencyScope → Bool
scope_eq s t =
    str_eq s.actor_id t.actor_id
    && str_eq s.method t.method
    && str_eq s.path t.path
    && str_eq s.key t.key

pub scope_eq_iff : (s t : IdempotencyScope) → (scope_eq s t ≡ true) ↔ (s ≡ t)
scope_eq_iff s t = ground (
  arith,
  str_eq_iff s.actor_id t.actor_id,
  str_eq_iff s.method t.method,
  str_eq_iff s.path t.path,
  str_eq_iff s.key t.key,
)

-- The primary key of `idempotency_records`.
instance abbrev pub eq_scope : Eq IdempotencyScope
eq_scope = record { test = scope_eq; test_iff = scope_eq_iff }

unfoldable pub scope_validate : IdempotencyScope → Res (Unit {0})
unfolding new_idempotency_key
scope_validate s = do
  _ ← new_id s.actor_id
  if s.method != ascii "POST"
      then fail validation_error
      else if is_blank s.path
      then fail validation_error
      else elim (new_idempotency_key s.key) [ err e ↦ err e | ok _ ↦ ok tt ]

pub record IdempotencyRecord : Type 0 where
  pub scope : IdempotencyScope
  pub request_hash : Str
  pub status : IdempotencyStatus
  pub resource_id : Option DomainId
  pub response_status : Option ℕ
  pub response_body : Option Body
  pub lease_expires_at : Option Time
  pub created_at : Time
  pub completed_at : Option Time
  pub expires_at : Option Time

-- `len(r.ResponseBody) == 0`.
abbrev pub no_body : Option Body → Bool
no_body none = true
no_body (some b) = is_empty b

-- `r.ExpiresAt.Equal(r.CompletedAt.Add(IdempotencyRetention))`, where neither is nil.
abbrev retained : Option Time → Option Time → Bool
retained (some e) (some c) = e == c + idempotency_retention
retained _ _ = false

-- The switch of `IdempotencyRecord.Validate`.
validate_status : IdempotencyStatus → IdempotencyRecord → Res (Unit {0})
validate_status IdempotencyStatus.in_progress r =
    if is_nil r.lease_expires_at
      || not (is_nil r.response_status)
      || not (is_nil r.completed_at)
      || not (is_nil r.expires_at)
      || not (is_nil r.response_body)
    then fail internal_error
    else ok tt
validate_status IdempotencyStatus.completed r =
    if not (is_nil r.lease_expires_at)
      || is_nil r.response_status
      || no_body r.response_body
      || is_nil r.completed_at
      || is_nil r.expires_at
    then fail internal_error
    else if not (retained r.expires_at r.completed_at)
    then fail internal_error
    else ok tt
validate_status (IdempotencyStatus.other s) r = fail internal_error

unfoldable pub record_validate : IdempotencyRecord → Res (Unit {0})
unfolding validate_status
record_validate r = do
  _ ← scope_validate r.scope
  _ ← new_request_hash r.request_hash
  validate_status r.status r

pub record MultipartHashPart : Type 0 where
  pub name : Str
  pub value : Str

-- `binary.BigEndian.PutUint64` of a length: `n` bytes, the highest first.
unfoldable pub big_endian : ℕ → ℕ → Str
big_endian zero x = []
big_endian (suc n) x = (x / 2 ^ (8 * n) % 256) ∷ big_endian n x

unfoldable pub hash_part : Str → Str → Str
hash_part name value =
    big_endian 8 (length name) ++ (name ++ (big_endian 8 (length value) ++ value))

-- What `HashCanonicalMultipart` writes to the hash, or the error that stops it.
unfoldable pub write_fields : List MultipartHashPart → Str → Res Str
write_fields [] file_sha256 = ok (hash_part (ascii "fileSha256") file_sha256)
write_fields (field ∷ fields) file_sha256 =
    let rest = write_fields fields file_sha256 in
    if field.name == []
    then fail validation_error
    else elim rest [ err e ↦ err e | ok bytes ↦ ok (hash_part field.name field.value ++ bytes) ]

-- `HashCanonicalMultipart` over `crypto/sha256` in hexadecimal digits.
unfoldable pub hash_canonical_multipart : (Str → Str) → List MultipartHashPart → Str → Res Str
hash_canonical_multipart sha256_hex fields file_sha256 = do
  _ ← new_request_hash file_sha256
  bytes ← write_fields fields file_sha256
  ok (sha256_hex bytes)

-- ===== src/Tests/Sample.antt =====
-- A family, a user, their request and a call about it, for the tests.
use mite.Prelude.{◌+◌, true, false, none, some, [], ◌∷◌, ◌++◌, ok, write}
use mite.Text.{Str, ascii, eq_str}
use mite.Domain.Enums.{Role, SupportRequestStatus, SupportSessionStatus}
use mite.Domain.User.{Actor}
use mite.Domain.Support.{Consent, SupportRequest, SupportSession, zero_request, zero_session}
use mite.Repository.{Db}
use mite.Service.Env.{Env}

abbrev pub grandmother : Actor
grandmother = record { id = ascii "u"; role = Role.user }

abbrev pub daughter : Actor
daughter = record { id = ascii "f"; role = Role.family }

abbrev pub request : SupportRequest
request = record zero_request {
  id = ascii "r";
  user_id = ascii "u";
  family_id = ascii "f";
  status = SupportRequestStatus.pending;
  revision = 1;
}

-- The request once it is called.
abbrev pub called_request : SupportRequest
called_request = record request { support_session_id = some (ascii "s"); revision = 2 }

abbrev pub session : SupportSession
session = record zero_session {
  id = ascii "s";
  support_request_id = ascii "r";
  user_id = ascii "u";
  family_id = ascii "f";
  live_kit_room_name = ascii "mite-s";
  status = SupportSessionStatus.ringing;
  revision = 1;
}

abbrev pub full_consent : Consent
full_consent = record {
  audio = true;
  screen_share = true;
  periodic_capture = true;
  text_version = ascii "v4";
}

abbrev pub active_session : SupportSession
active_session = record session {
  status = SupportSessionStatus.active;
  consent = some full_consent;
  consented_at = some 100;
  started_at = some 100;
  updated_at = 100;
  revision = 2;
}

abbrev pub supported_request : SupportRequest
supported_request = record called_request {
  status = SupportRequestStatus.in_support;
  updated_at = 100;
  revision = 3;
}

-- 64 hexadecimal digits.
abbrev pub some_hash : Str
some_hash = ascii "00112233445566778899aabbccddeeff00112233445566778899aabbccddeeff"

abbrev pub env : Env
env = record {
  now = 100;
  new_id = λ prefix k. ok (prefix ++ (48 + k) ∷ []);
  digest = λ payload. some_hash;
  refuses = λ query. false;
}

abbrev pub db_of : SupportRequest → Db
db_of r = record {
  requests = write (λ id. none) r.id (some r);
  sessions = λ id. none;
  jobs = λ id. none;
  job_ids = [];
  batches = λ id. none;
  materials = λ id. [];
  drafts = λ id. [];
  artifacts = λ id. none;
  deletions = [];
  runs = λ id. none;
  step_counts = λ id version. 0;
  users = λ id. some Role.user;
  pairs = λ id. none;
  keys = λ scope. none;
  presences = λ id. none;
  notified = [];
}

-- Before the call.
abbrev pub waiting : Db
waiting = db_of request

-- While the call rings.
abbrev pub ringing : Db
ringing = record (db_of called_request) { sessions = write (λ id. none) session.id (some session) }

abbrev pub supporting : Db
supporting = record (db_of supported_request) {
  sessions = write (λ id. none) active_session.id (some active_session);
}

-- ===== src/Tests/Companion.antt =====
-- A user who has been there for a while, and waits for support.
use mite.Prelude.{
  ◌∙◌, sym, ap, inl, inr, write-cases, ◌+◌, ◌≡◌, ◌≤◌, refl, Bool, true, false, none, some, List, [],
  ◌∷◌, length, write, ltb,
}
use mite.Text.{ascii, eq_str}
use mite.Domain.Enums.{PresenceStatus}
use mite.Domain.Value.{DomainId, validate_text}
use mite.Domain.Support.{SupportRequest}
use mite.Domain.Request.{request_validate}
use mite.Domain.Companion.{UserPresence, validate_stored}
use mite.Repository.{Db, Query}
use mite.Service.Companion.{Options, record_heartbeat, notify_request_created}
use mite.Service.Companion.Beats.{IsUnrepeated}
use mite.Service.Companion.Once.{Signal, beats, creates, signals, Follows, signals-once}
use mite.Service.Companion.Presence.{IsPresent}
use mite.Tests.Sample.{grandmother, waiting, request}
use mite.Tests.Calls.{machinery}

abbrev options : Options
options = record { online_after = 60; offline_after = 90; reconnect_after = 600; enabled = true }

abbrev there : UserPresence
there = record {
  user_id = ascii "u";
  status = PresenceStatus.offline;
  connected_since = some 100;
  last_seen_at = some 190;
  updated_at = some 190;
  connection_epoch = 2;
  revision = 5;
}

abbrev asking : SupportRequest
asking = record request {
  initial_screenshot_artifact_id = ascii "a";
  created_at = 195;
  updated_at = 195;
}

abbrev home : Db
home = record waiting {
  requests = write (λ id. none) (ascii "r") (some asking);
  pairs = λ id. some (record { user_id = ascii "u"; family_id = ascii "f" });
  presences = write (λ id. none) (ascii "u") (some there);
}

abbrev up : Query → Bool
up query = false

abbrev before : DomainId → DomainId → Bool
before a b = ltb (length a) (length b)

-- The request is created, two heartbeats follow, and one comes after a long absence.
abbrev day : List Signal
day =
    creates up 195 (record { user_id = ascii "u"; family_id = ascii "f" }) (ascii "r")
    ∷ beats up 200 grandmother
    ∷ beats up 220 grandmother
    ∷ beats up 900 grandmother
    ∷ beats up 960 grandmother
    ∷ []

-- The family is told of the request, and again when the user is back for a minute.
told_twice :
    (signals options before (ascii "r" ∷ []) day home).1
    ≡ record { family_id = ascii "f"; kind = ascii "NEW_SUPPORT_REQUEST" }
      ∷ record { family_id = ascii "f"; kind = ascii "ONLINE_WITH_PENDING_REQUEST" }
      ∷ []
unfolding machinery record_heartbeat notify_request_created validate_stored request_validate
    validate_text
told_twice = refl

home-IsPresent : IsPresent home
home-IsPresent id p h = elim (write-cases (λ id. none) (ascii "u") id there p h) [
  | inl (here, e) ↦ ap (λ (x : UserPresence). x.user_id) e ∙ sym here
  | inr (apart, none_there) ↦ cc
]

signals-once_example :
    Follows options before (ascii "r" ∷ []) day home
    × IsUnrepeated (signals options before (ascii "r" ∷ []) day home).0.notified
    × (length (signals options before (ascii "r" ∷ []) day home).1 + 0
        ≤ length (signals options before (ascii "r" ∷ []) day home).0.notified)
signals-once_example = signals-once options before (ascii "r" ∷ []) day home home-IsPresent tt

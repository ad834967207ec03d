-- ===== src/Service/Session/Rows.antt =====
-- The abstract machine of the support calls: the two tables of server/internal/service's session
-- use cases, the steps that they may make, and what holds of the tables at all times.
pub mod Consistent
use mathlib.Core.Path.{subst}
use mite.Prelude.{
  ◌+◌, ◌≡◌, ◌≢◌, refl, ◌∙◌, sym, ap, ◌⊎◌, inl, inr, true, Option, none, some, arith, Bool-cases,
  write, write_self, write_ne, ◌==◌, eq_of_==, ==_refl,
}
use mite.Text.{eq_str}
use mite.Domain.Enums.{SupportRequestStatus, SupportSessionStatus}
use mite.Domain.Status.{session_can_transition, request_can_transition}
use mite.Domain.Value.{DomainId}
use mite.Domain.Support.{SupportRequest, SupportSession, Consent, accepted}

abbrev pub Requests : Type 0
Requests = DomainId → Option SupportRequest

abbrev pub Sessions : Type 0
Sessions = DomainId → Option SupportSession

-- The status that a request has while its session has a status.
abbrev pub Fits : SupportSessionStatus → SupportRequestStatus → Type 0
Fits SupportSessionStatus.ringing r = r ≡ SupportRequestStatus.pending
Fits SupportSessionStatus.active r = r ≡ SupportRequestStatus.in_support
Fits SupportSessionStatus.generating_guide r = r ≡ SupportRequestStatus.resolved
Fits SupportSessionStatus.reviewing_guide r = r ≡ SupportRequestStatus.resolved
Fits SupportSessionStatus.guide_saved r = r ≡ SupportRequestStatus.resolved
Fits SupportSessionStatus.ended r = r ≡ SupportRequestStatus.resolved
Fits (SupportSessionStatus.other s) r = ⊥

-- A session that is past ringing has the full consent of the user.
abbrev pub IsConsented : SupportSession → Type 0
IsConsented s =
    (s.status ≡ SupportSessionStatus.ringing)
    ⊎ ((c : Consent) × (s.consent ≡ some c) × (accepted c ≡ true))

-- A session and the request that it answers.
abbrev pub IsPair : SupportRequest → SupportSession → Type 0
IsPair r s =
    (s.support_request_id ≡ r.id)
    × (r.support_session_id ≡ some s.id)
    × (s.user_id ≡ r.user_id)
    × (s.family_id ≡ r.family_id)
    × Fits s.status r.status
    × IsConsented s

-- Every session stands under its id and forms a pair with its request, and every request that
-- names a session is the request of that session.
abbrev pub IsConsistent : Requests → Sessions → Type 0
IsConsistent requests sessions =
    ((id : DomainId) (s : SupportSession)
      → sessions id ≡ some s
      → (s.id ≡ id) × (r : SupportRequest) × (requests s.support_request_id ≡ some r) × IsPair r s)
    × ((id : DomainId) (r : SupportRequest)
        → requests id ≡ some r
        → (r.id ≡ id)
          × ((sid : DomainId)
              → r.support_session_id ≡ some sid
              → (s : SupportSession) × (sessions sid ≡ some s) × (s.support_request_id ≡ id)))

-- A call starts: a pending request without a session gets a ringing one.
abbrev pub Starts : Requests → Sessions → Requests → Sessions → Type 0
Starts requests sessions requests' sessions' =
    (r : SupportRequest) × (r' : SupportRequest) × (s : SupportSession) × (requests r.id ≡ some r)
    × (sessions s.id ≡ none)
    × (r.support_session_id ≡ none)
    × (s.status ≡ SupportSessionStatus.ringing)
    × (s.revision ≡ 1)
    × (r'.id ≡ r.id)
    × (r'.user_id ≡ r.user_id)
    × (r'.revision ≡ r.revision + 1)
    × (r'.status ≡ r.status)
    × IsPair r' s
    × (requests' ≡ write requests r.id (some r'))
    × (sessions' ≡ write sessions s.id (some s))

-- A request's row stays, or takes one transition and one revision.
abbrev pub RequestMoves : SupportRequest → SupportRequest → Type 0
RequestMoves r r' =
    (r' ≡ r)
    ⊎ ((request_can_transition r.status r'.status ≡ true)
        × (r'.revision ≡ r.revision + 1)
        × (r'.id ≡ r.id))

-- A session and its request move on: an allowed transition and one revision more.
abbrev pub Moves : Requests → Sessions → Requests → Sessions → Type 0
Moves requests sessions requests' sessions' =
    (r : SupportRequest) × (r' : SupportRequest) × (s : SupportSession) × (s' : SupportSession)
    × (requests r.id ≡ some r)
    × (sessions s.id ≡ some s)
    × IsPair r s
    × RequestMoves r r'
    × (session_can_transition s.status s'.status ≡ true)
    × (s'.revision ≡ s.revision + 1)
    × (s'.id ≡ s.id)
    × (r'.id ≡ r.id)
    × (r'.user_id ≡ r.user_id)
    × IsPair r' s'
    × (requests' ≡ write requests r.id (some r'))
    × (sessions' ≡ write sessions s.id (some s'))

-- What changes the tables: a call starts, or a session moves on.
abbrev pub Turns : Requests → Sessions → Requests → Sessions → Type 0
Turns requests sessions requests' sessions' =
    Starts requests sessions requests' sessions' ⊎ Moves requests sessions requests' sessions'

-- Nothing changes in the tables, or what a relation allows.
abbrev pub StaysOr :
    (Requests → Sessions → Requests → Sessions → Type 0)
    → Requests
    → Sessions
    → Requests
    → Sessions
    → Type 0
StaysOr R requests sessions requests' sessions' =
    ((requests' ≡ requests) × (sessions' ≡ sessions)) ⊎ R requests sessions requests' sessions'

-- A step of the machine.
abbrev pub Advances : Requests → Sessions → Requests → Sessions → Type 0
Advances requests sessions requests' sessions' = StaysOr Turns requests sessions requests' sessions'

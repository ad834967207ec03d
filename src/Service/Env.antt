-- ===== src/Service/Env.antt =====
-- What a use case takes from outside: the clock (`s.now`), the random ids (`s.newID`), SHA-256 over
-- the canonical JSON of a request (`HashCanonicalJSON`), and the statements that PostgreSQL refuses.
use mite.Prelude.{ℕ, Bool, List}
use mite.Text.{Str}
use mite.Domain.Errors.{Res}
use mite.Domain.Enums.{GuideDecision, SupportSessionEndReason}
use mite.Domain.Value.{DomainId}
use mite.Domain.Event.{Event}
use mite.Domain.Support.{Time, Consent}
use mite.Repository.{Db, Query}

-- The structures that are hashed, one for each kind of request.
pub data Payload : Type 0 where
  call_payload : ℕ → Payload
  accept_payload : ℕ → Consent → Payload
  resolve_payload : ℕ → GuideDecision → Payload
  end_without_guide_payload : ℕ → SupportSessionEndReason → Payload
  end_payload : ℕ → Payload
  request_payload : Str → Str → Payload
  revision_payload : ℕ → Payload
  job_revision_payload : ℕ → Payload

-- `new_id prefix k` is the k-th id of the prefix that the request draws.
pub record Env : Type 0 where
  pub now : Time
  pub new_id : Str → ℕ → Res DomainId
  pub digest : Payload → Str
  pub refuses : Query → Bool

-- What a use case returns to its caller, leaves in the database, and publishes.
abbrev pub Outcome {ℓ} : Type ℓ → Type ℓ
Outcome A = Res A × Db × List Event

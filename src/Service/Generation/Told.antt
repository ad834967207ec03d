-- ===== src/Service/Generation/Told.antt =====
-- The events that the ends of server/internal/service/guide_worker.go publish, field by field.
use mite.Prelude.{ℕ, ◌+◌, ◌≡◌, refl, ap, arith, Bool, List, [], ◌∷◌, ◌++◌, length}
use mite.Text.{Str, ascii}
use mite.Domain.Value.{DomainId}
use mite.Domain.Event.{Event, EventType, EventData, job_data, draft_data, session_data}
use mite.Domain.Guide.{GuideGenerationJob, GuideDraft}
use mite.Domain.Support.{Time, SupportSession}
use mite.Repository.{Query}
use mite.Repository.Generation.{GenerationContext}
use mite.Service.Snapshot.{session_snapshot}
use mite.Service.Session.Common.{session_pair}
use mite.Service.Generation.{job_event, review_event, draft_events, review_events}

-- What an event says of a thing, and to whom: the user and the family of the session.
abbrev pub Tells :
    DomainId → Time → SupportSession → EventType → DomainId → ℕ → EventData → Event → Type 0
Tells event_id later session type entity_id revision content e =
    (e.event_id ≡ event_id)
    × (e.type ≡ type)
    × (e.occurred_at ≡ later)
    × (e.entity_id ≡ entity_id)
    × (e.revision ≡ revision)
    × (e.content ≡ content)
    × (e.audience.user_id ≡ session.user_id)
    × (e.audience.family_id ≡ session.family_id)

abbrev pub TellsJob : DomainId → Time → SupportSession → GuideGenerationJob → Event → Type 0
TellsJob event_id later session job e =
    Tells event_id later session EventType.guide_generation_job_updated job.id job.revision
      (job_data job) e

abbrev pub TellsSession : DomainId → Time → SupportSession → Event → Type 0
TellsSession event_id later session e =
    Tells event_id later session EventType.support_session_updated session.id session.revision
      (session_data (session_snapshot session)) e

abbrev pub TellsDraft : DomainId → Time → SupportSession → GuideDraft → Event → Type 0
TellsDraft event_id later session draft e =
    Tells event_id later session EventType.guide_draft_created draft.id draft.revision
      (draft_data draft) e

-- One event of each draft in their order, then one of the job, then one of the session, and no
-- other; their ids are drawn from the `k`-th on.
abbrev pub AreTold :
    (Str → ℕ → DomainId)
    → Time
    → ℕ
    → SupportSession
    → GuideGenerationJob
    → List GuideDraft
    → List Event
    → Type 0
AreTold fresh later k session job [] [] = ⊥
AreTold fresh later k session job [] (e ∷ []) = ⊥
AreTold fresh later k session job [] (e ∷ e' ∷ []) =
    TellsJob (fresh (ascii "evt_") k) later session job e
    × TellsSession (fresh (ascii "evt_") (k + 1)) later session e'
AreTold fresh later k session job [] (e ∷ e' ∷ e'' ∷ events) = ⊥
AreTold fresh later k session job (draft ∷ drafts) [] = ⊥
AreTold fresh later k session job (draft ∷ drafts) (e ∷ events) =
    TellsDraft (fresh (ascii "evt_") k) later session draft e
    × AreTold fresh later (k + 1) session job drafts events

module _ (refuses : Query → Bool) (now later : Time) (fresh : Str → ℕ → DomainId)
    (claimed : GuideGenerationJob) (context : GenerationContext) where
  told_from :
      (k n : ℕ) (session : SupportSession) (job : GuideGenerationJob) (drafts : List GuideDraft)
      → n ≡ k + length drafts
      → AreTold fresh later k session job drafts (
          draft_events refuses now later fresh claimed context k (session_pair session) drafts
          ++ job_event (fresh (ascii "evt_") n) later job (session_pair session)
            ∷ review_event (fresh (ascii "evt_") (n + 1)) later session (session_pair session)
            ∷ [])
  unfolding draft_events review_event
  told_from k n session job [] h = (
    (ap (fresh (ascii "evt_")) at, refl, refl, refl, refl, refl, refl, refl),
    (ap (λ i. fresh (ascii "evt_") (i + 1)) at, refl, refl, refl, refl, refl, refl, refl),
  )
    where
      at : n ≡ k
      at = omega arith
  told_from k n session job (draft ∷ drafts) h = (
    (refl, refl, refl, refl, refl, refl, refl, refl),
    told_from (k + 1) n session job drafts (omega arith),
  )

  pub review_events-AreTold :
      (session : SupportSession) (job : GuideGenerationJob) (drafts : List GuideDraft)
      → AreTold fresh later 0 session job drafts
          (review_events refuses now later fresh claimed context job session drafts)
  unfolding review_events
  review_events-AreTold session job drafts =
      told_from 0 (length drafts) session job drafts (omega arith)

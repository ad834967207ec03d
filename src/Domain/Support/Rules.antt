-- ===== src/Domain/Support/Rules.antt =====
-- When the rules of server/internal/domain/support_session_rules.go let a session go on.
use mite.Prelude.{◌≡◌, ◌⊎◌, ◌↔◌, true, Option, none, some, arith, ok, ==_refl, points_to-eq}
use mite.Text.{eq_str}
use mite.Domain.Enums.{
  Role, SupportRequestStatus, SupportSessionStatus, GuideDecision, SupportSessionEndReason,
  GuideGenerationJobStatus, eq_guide_generation_job_status,
}
use mite.Domain.Status.{decision_valid}
use mite.Domain.User.{Actor}
use mite.Domain.Support.{
  SupportRequest, SupportSession, Consent, accepted, validate_accept, validate_resolve,
  validate_end_without_guide,
}

-- A call is accepted exactly if it rings, its request is pending and names it, and the consent is
-- full.
pub validate_accept_iff :
    (session : SupportSession) (request : SupportRequest) (consent : Consent)
    → (validate_accept session request consent ≡ ok tt) ↔ (
        (session.status ≡ SupportSessionStatus.ringing)
        × (request.status ≡ SupportRequestStatus.pending)
        × (request.support_session_id ≡ some session.id)
        × (accepted consent ≡ true))
unfolding validate_accept
validate_accept_iff session request consent =
    ground (arith, points_to-eq request.support_session_id session.id, ==_refl session.id)

-- A call is resolved exactly if the decision is one of the two, it is active, and its request is in
-- support and names it.
pub validate_resolve_iff :
    (session : SupportSession) (request : SupportRequest) (decision : GuideDecision)
    → (validate_resolve session request decision ≡ ok tt) ↔ (
        ((decision ≡ GuideDecision.create) ⊎ (decision ≡ GuideDecision.skip))
        × (session.status ≡ SupportSessionStatus.active)
        × (request.status ≡ SupportRequestStatus.in_support)
        × (request.support_session_id ≡ some session.id))
unfolding validate_resolve decision_valid
validate_resolve_iff session request decision =
    ground (arith, points_to-eq request.support_session_id session.id, ==_refl session.id)

-- A session is ended without a guide exactly if the user has no materials for a guide that is
-- not begun, or the family cancels a guide that is in review, not begun, or failed.
pub validate_end_without_guide_iff :
    (session : SupportSession) (actor : Actor) (reason : SupportSessionEndReason)
    (job : Option GuideGenerationJobStatus)
    → (validate_end_without_guide session actor reason job ≡ ok tt) ↔ (
        ((actor.role ≡ Role.user)
          × (reason ≡ SupportSessionEndReason.no_materials)
          × (session.status ≡ SupportSessionStatus.generating_guide)
          × (session.guide_material_batch_id ≡ none)
          × (session.guide_generation_job_id ≡ none))
        ⊎ ((actor.role ≡ Role.family)
            × (reason ≡ SupportSessionEndReason.guide_cancelled)
            × ((session.status ≡ SupportSessionStatus.reviewing_guide)
                ⊎ ((session.status ≡ SupportSessionStatus.generating_guide)
                    × ((session.guide_generation_job_id ≡ none)
                        ⊎ (job ≡ some GuideGenerationJobStatus.failed))))))
unfolding validate_end_without_guide
validate_end_without_guide_iff session actor reason job =
    ground (arith, points_to-eq job GuideGenerationJobStatus.failed)

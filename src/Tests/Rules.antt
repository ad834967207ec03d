-- ===== src/Tests/Rules.antt =====
-- The theorems on the rules of the domain, at small inputs.
use mite.Prelude.{
  ℕ, ◌+◌, ◌≤◌, ◌≡◌, ◌↔◌, ◌⊎◌, refl, arith, true, none, some, List, [], ◌∷◌, ok, length,
}
use mite.Text.{ascii, eq_str}
use mite.Domain.Errors.{fail, internal_error}
use mite.Domain.Enums.{
  Role, SupportSessionEndReason, SupportSessionStatus, SupportRequestStatus, GuideRunAction,
  GuideGenerationJobStatus,
}
use mite.Domain.Status.{session_can_transition}
use mite.Domain.Status.Machine.{IsHistory, IsCurrent, last_status, ringing_history}
use mite.Domain.Value.{new_id, validate_text, check_expected_revision, next_revision, max_int64}
use mite.Domain.Value.Laws.{next_revision-check}
use mite.Domain.User.{authorize, role_allowed}
use mite.Domain.User.Authorize.{IsMember, authorize_iff}
use mite.Domain.Support.{SupportSession, accepted, validate_accept, validate_end_without_guide}
use mite.Domain.Support.Rules.{validate_accept_iff, validate_end_without_guide_iff}
use mite.Domain.Guide.{GuideStep, move_guide_step, select_material_indexes, validate_draft_content}
use mite.Domain.Guide.Steps.{AreSteps, move_guide_step_iff, validate_draft_content_iff}
use mite.Domain.Guide.Selection.{Selects, select_material_indexes-Selects}
use mite.Service.Session.Common.{session_pair}
use mite.Tests.Sample.{daughter, session, called_request, full_consent, active_session}

abbrev whole_life : List SupportSessionStatus
whole_life =
    SupportSessionStatus.active ∷ SupportSessionStatus.generating_guide
    ∷ SupportSessionStatus.reviewing_guide ∷ SupportSessionStatus.ended ∷ []

whole_life-IsHistory : IsHistory SupportSessionStatus.ringing whole_life
unfolding session_can_transition
whole_life-IsHistory = (refl, (refl, (refl, (refl, tt))))

ringing_history_example :
    (length whole_life ≤ 4) × IsCurrent (last_status SupportSessionStatus.ringing whole_life)
ringing_history_example = ringing_history whole_life whole_life-IsHistory

validate_accept_iff_example : (validate_accept session called_request full_consent ≡ ok tt) ↔ (
    (session.status ≡ SupportSessionStatus.ringing)
    × (called_request.status ≡ SupportRequestStatus.pending)
    × (called_request.support_session_id ≡ some session.id)
    × (accepted full_consent ≡ true))
validate_accept_iff_example = validate_accept_iff session called_request full_consent

abbrev reviewed : SupportSession
reviewed = record active_session { status = SupportSessionStatus.reviewing_guide }

validate_end_without_guide_iff_example :
    (validate_end_without_guide reviewed daughter SupportSessionEndReason.guide_cancelled none
      ≡ ok tt)
    ↔ (((daughter.role ≡ Role.user)
          × (SupportSessionEndReason.guide_cancelled ≡ SupportSessionEndReason.no_materials)
          × (reviewed.status ≡ SupportSessionStatus.generating_guide)
          × (reviewed.guide_material_batch_id ≡ none)
          × (reviewed.guide_generation_job_id ≡ none))
        ⊎ ((daughter.role ≡ Role.family)
            × (SupportSessionEndReason.guide_cancelled ≡ SupportSessionEndReason.guide_cancelled)
            × ((reviewed.status ≡ SupportSessionStatus.reviewing_guide)
                ⊎ ((reviewed.status ≡ SupportSessionStatus.generating_guide)
                    × ((reviewed.guide_generation_job_id ≡ none)
                        ⊎ (none ≡ some GuideGenerationJobStatus.failed))))))
validate_end_without_guide_iff_example =
    validate_end_without_guide_iff reviewed daughter SupportSessionEndReason.guide_cancelled none

cancels :
    validate_end_without_guide reviewed daughter SupportSessionEndReason.guide_cancelled none
    ≡ ok tt
unfolding validate_end_without_guide
cancels = refl

select_material_indexes-Selects_example : Selects 100 (select_material_indexes 100)
select_material_indexes-Selects_example = select_material_indexes-Selects 100

move_guide_step_iff_example : (move_guide_step 2 5 GuideRunAction.previous ≡ ok 1) ↔ (
    (5 ≤ 8)
    × (1 ≤ 2)
    × (2 ≤ 5)
    × (1 ≤ 1)
    × (1 ≤ 5)
    × (((GuideRunAction.previous ≡ GuideRunAction.next) × (1 ≡ 2 + 1))
        ⊎ ((GuideRunAction.previous ≡ GuideRunAction.previous) × (1 + 1 ≡ 2))))
move_guide_step_iff_example = move_guide_step_iff 2 5 1 GuideRunAction.previous

abbrev one_step : GuideStep
one_step = record { position = 1; artifact_id = ascii "i"; instruction = ascii "press" }

validate_draft_content_iff_example :
    (validate_draft_content (ascii "tv") (one_step ∷ []) (ascii "i" ∷ []) ≡ ok tt) ↔ (
      (validate_text (ascii "tv") 1 40 true ≡ ok tt)
      × (1 ≤ length (one_step ∷ []))
      × (length (one_step ∷ []) ≤ 8)
      × AreSteps (ascii "i" ∷ []) 0 (one_step ∷ []))
validate_draft_content_iff_example =
    validate_draft_content_iff (ascii "tv") (one_step ∷ []) (ascii "i" ∷ [])

authorize_iff_example : (authorize (session_pair session) daughter (Role.family ∷ []) ≡ ok tt) ↔ (
    (new_id (ascii "f") ≡ ok (ascii "f"))
    × IsMember (session_pair session) daughter
    × (role_allowed Role.family (Role.family ∷ []) ≡ true))
authorize_iff_example = authorize_iff (session_pair session) daughter (Role.family ∷ [])

expected_revision : check_expected_revision 7 7 ≡ ok tt
unfolding check_expected_revision
expected_revision = refl

next_revision-check_example :
    (◌≡◌ {A = ℕ} 7 7)
    × (((next_revision 7 ≡ ok (7 + 1)) × (7 + 1 ≤ max_int64))
        ⊎ ((next_revision 7 ≡ fail internal_error) × (7 ≡ max_int64)))
next_revision-check_example = next_revision-check 7 7 (omega arith) expected_revision

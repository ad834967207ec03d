-- ===== src/Domain/Request.antt =====
-- The rules of server/internal/domain/artifact_support.go for support requests.
use mite.Prelude.{
  Bool, true, false, ◌&&◌, ◌||◌, not, Option, none, some, List, [], ◌∷◌, ltb, ◌==◌, eq_nat, is_nil,
  ok, fail_if, ◌>>=◌,
}
use mite.Text.{Str, eq_str}
use mite.Domain.Errors.{Res, domain, validation_error}
use mite.Domain.Enums.{
  SupportRequestStatus, eq_support_request_status, SupportAcknowledgementKind,
  eq_support_acknowledgement_kind,
}
use mite.Domain.Status.{request_status_valid, acknowledgement_kind_valid}
use mite.Domain.Value.{DomainId, new_id, validate_text}
use mite.Domain.Support.{Time, GuideContext, SupportRequest}

-- A loop that checks ids.
new_ids : List DomainId → Res (Unit {0})
new_ids [] = ok tt
new_ids (id ∷ ids) = do _ ← new_id id; new_ids ids

has_nul : Str → Bool
has_nul [] = false
has_nul (c ∷ s) = c == 0 || has_nul s

unfoldable pub validate_comment : Str → Res (Unit {0})
unfolding has_nul
validate_comment comment = do
  _ ← fail_if (has_nul comment) (domain validation_error)
  validate_text comment 0 500 false

-- `GuideContext.Validate`.
unfoldable pub context_validate : GuideContext → Res (Unit {0})
unfolding new_ids
context_validate c = do
  _ ← new_ids (c.guide_run_id ∷ c.guide_id ∷ c.step_artifact_id ∷ [])
  _ ← fail_if (ltb c.guide_version_number 1 || ltb c.step_number 1) (domain validation_error)
  _ ← validate_text c.guide_title 1 40 true
  validate_text c.step_instruction 1 120 true

-- A check of a pointer that is not nil.
abbrev pub when_some {ℓ} : {A : Type ℓ} → Option A → (A → Res (Unit {0})) → Res (Unit {0})
when_some none f = ok tt
when_some (some a) f = f a

acknowledged : Option SupportAcknowledgementKind → Option Time → Res (Unit {0})
acknowledged none at = fail_if true (domain validation_error)
acknowledged (some kind) at =
    fail_if
      (not (acknowledgement_kind_valid kind)
        || (kind == SupportAcknowledgementKind.scheduled && is_nil at)
        || (not (kind == SupportAcknowledgementKind.scheduled) && not (is_nil at)))
      (domain validation_error)

-- The acknowledgement of a request: all of it or nothing, and a time only where it is scheduled.
unfoldable pub acknowledgement_validate : SupportRequest → Res (Unit {0})
unfolding acknowledged
acknowledgement_validate r = elim r.acknowledged_at [
  | none ↦
      fail_if (not (is_nil r.acknowledgement_kind) || not (is_nil r.estimated_support_at))
        (domain validation_error)
  | some t ↦ acknowledged r.acknowledgement_kind r.estimated_support_at
]

-- `SupportRequest.Validate`.
unfoldable pub request_validate : SupportRequest → Res (Unit {0})
unfolding new_ids validate_comment request_status_valid context_validate acknowledgement_validate
request_validate r = do
  _ ← new_ids (r.id ∷ r.user_id ∷ r.family_id ∷ r.initial_screenshot_artifact_id ∷ [])
  _ ← fail_if (r.user_id == r.family_id) (domain validation_error)
  _ ← validate_comment r.comment
  _ ← fail_if (not (request_status_valid r.status)) (domain validation_error)
  _ ← when_some r.support_session_id (λ id. new_id id >>= λ _. ok tt)
  _ ← when_some r.guide_context context_validate
  _ ← acknowledgement_validate r
  _ ←
      fail_if (r.status == SupportRequestStatus.cancelled && not (is_nil r.support_session_id))
        (domain validation_error)
  _ ←
      fail_if (r.created_at == 0 || r.updated_at == 0 || ltb r.updated_at r.created_at)
        (domain validation_error)
  fail_if (ltb r.revision 1) (domain validation_error)

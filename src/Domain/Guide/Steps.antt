-- ===== src/Domain/Guide/Steps.antt =====
-- Moving through a guide, and drafts whose content is accepted (server/internal/domain/guide.go).
use mite.Prelude.{ℕ, ◌+◌, ◌≤◌, ◌≡◌, refl, ◌↔◌, ◌⊎◌, true, arith, List, [], ◌∷◌, length, ok}
use mite.Text.{Str}
use mite.Domain.Enums.{GuideRunAction}
use mite.Domain.Value.{DomainId, validate_text}
use mite.Domain.Guide.{GuideStep, move_guide_step, contains, validate_steps, validate_draft_content}

-- A move succeeds exactly if it starts and ends inside a guide of at most eight steps, and it goes
-- one step forward or one step back.
pub move_guide_step_iff :
    (current total next : ℕ) (action : GuideRunAction)
    → (move_guide_step current total action ≡ ok next) ↔ (
        (total ≤ 8)
        × (1 ≤ current)
        × (current ≤ total)
        × (1 ≤ next)
        × (next ≤ total)
        × (((action ≡ GuideRunAction.next) × (next ≡ current + 1))
            ⊎ ((action ≡ GuideRunAction.previous) × (next + 1 ≡ current))))
unfolding move_guide_step
move_guide_step_iff current total next action = (λ h. ground arith, λ h. ground arith)

-- A step is what the validation asks of the step at an index.
abbrev pub IsStep : List DomainId → ℕ → GuideStep → Type 0
IsStep allowed index s =
    (s.position ≡ index + 1)
    × (validate_text s.instruction 1 120 true ≡ ok tt)
    × (contains allowed s.artifact_id ≡ true)

abbrev pub AreSteps : List DomainId → ℕ → List GuideStep → Type 0
AreSteps allowed index [] = Unit
AreSteps allowed index (s ∷ ss) = IsStep allowed index s × AreSteps allowed (index + 1) ss

validate_steps_sound :
    (index : ℕ) (steps : List GuideStep) (allowed : List DomainId)
    → validate_steps index steps allowed ≡ ok tt
    → AreSteps allowed index steps
unfolding validate_steps
validate_steps_sound index [] allowed h = tt
validate_steps_sound index (s ∷ ss) allowed h =
    ground (arith, validate_steps_sound (index + 1) ss allowed)

validate_steps_complete :
    (index : ℕ) (steps : List GuideStep) (allowed : List DomainId)
    → AreSteps allowed index steps
    → validate_steps index steps allowed ≡ ok tt
unfolding validate_steps
validate_steps_complete index [] allowed h = refl
validate_steps_complete index (s ∷ ss) allowed h =
    ground (arith, validate_steps_complete (index + 1) ss allowed)

-- A draft is accepted exactly if its title is valid, it has one to eight steps, and each of them
-- bears its number, a valid instruction and an allowed image.
pub validate_draft_content_iff :
    (title : Str) (steps : List GuideStep) (allowed : List DomainId)
    → (validate_draft_content title steps allowed ≡ ok tt) ↔ (
        (validate_text title 1 40 true ≡ ok tt)
        × (1 ≤ length steps)
        × (length steps ≤ 8)
        × AreSteps allowed 0 steps)
unfolding validate_draft_content
validate_draft_content_iff title steps allowed = (
  λ h. ground (arith, validate_steps_sound 0 steps allowed),
  λ h. ground (arith, validate_steps_complete 0 steps allowed),
)

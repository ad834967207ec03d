-- ===== src/Domain/Guide.antt =====
-- server/internal/domain/guide.go: guides, their drafts and runs, and what makes their content valid.
pub mod Steps
pub mod Selection
use mite.Prelude.{
  ℕ, zero, suc, ◌+◌, ◌-◌, ◌*◌, ◌/◌, Bool, true, false, ◌&&◌, ◌||◌, not, Option, none, some, List,
  [], ◌∷◌, map, if◌then◌else◌, ltb, leb, ◌==◌, ◌!=◌, eq_nat, length, Result, ok, err, ◌>>=◌,
}
use mite.Text.{Str, eq_str}
use mite.Domain.Errors.{Error, Res, fail, validation_error}
use mite.Domain.Enums.{
  GuideMaterialBatchStatus, GuideGenerationJobStatus, GuideDraftStatus, GuideRunStatus,
  GuideRunAction, eq_guide_run_action,
}
use mite.Domain.Status.{action_valid}
use mite.Domain.Value.{DomainId, validate_text}
use mite.Domain.Support.{Time}

abbrev pub capture_interval_seconds : ℕ
capture_interval_seconds = 10

abbrev pub max_guide_materials : ℕ
max_guide_materials = 360

abbrev pub max_guide_steps : ℕ
max_guide_steps = 8

abbrev pub max_ai_input_materials : ℕ
max_ai_input_materials = 30

abbrev pub max_guide_job_attempts : ℕ
max_guide_job_attempts = 3

pub record GuideStep : Type 0 where
  pub position : ℕ
  pub artifact_id : DomainId
  pub instruction : Str

pub record GuideRun : Type 0 where
  pub id : DomainId
  pub guide_id : DomainId
  pub guide_version_number : ℕ
  pub user_id : DomainId
  pub status : GuideRunStatus
  pub current_step_number : ℕ
  pub support_request_id : Option DomainId
  pub started_at : Time
  pub completed_at : Option Time
  pub paused_at : Option Time
  pub updated_at : Time
  pub revision : ℕ

pub data GuideGenerationErrorCode : Type 0 where
  ai_timeout ai_unavailable ai_refusal ai_incomplete_response : GuideGenerationErrorCode
  ai_invalid_output ai_input_unavailable worker_restarted : GuideGenerationErrorCode
  other : Str → GuideGenerationErrorCode

-- `GuideGenerationErrorCode.Valid`.
unfoldable pub error_code_valid : GuideGenerationErrorCode → Bool
error_code_valid (GuideGenerationErrorCode.other s) = false
error_code_valid _ = true

pub record GuideGenerationJob : Type 0 where
  pub id : DomainId
  pub batch_id : DomainId
  pub status : GuideGenerationJobStatus
  pub attempt : ℕ
  pub guide_draft_id : Option DomainId
  pub error_code : Option GuideGenerationErrorCode
  pub created_at : Time
  pub started_at : Option Time
  pub finished_at : Option Time
  pub updated_at : Time
  pub revision : ℕ

pub record GuideDraft : Type 0 where
  pub position : ℕ
  pub id : DomainId
  pub support_session_id : DomainId
  pub title : Str
  pub steps : List GuideStep
  pub status : GuideDraftStatus
  pub revision : ℕ
  pub created_at : Time
  pub updated_at : Time

-- `MoveGuideStep`. `next--` runs only where the step is at least 1, so `-` is exact.
unfoldable pub move_guide_step : ℕ → ℕ → GuideRunAction → Res ℕ
unfolding action_valid
move_guide_step current total action =
    if ltb total 1
      || ltb max_guide_steps total
      || ltb current 1
      || ltb total current
      || not (action_valid action)
    then fail validation_error
    else let next = if action == GuideRunAction.next then current + 1 else current - 1 in
      if ltb next 1 || ltb total next then fail validation_error else ok next

unfoldable pub can_complete_guide_run : ℕ → ℕ → Bool
can_complete_guide_run current total = leb 1 total && leb total max_guide_steps && current == total

-- `map[ID]struct{}`, by its keys.
unfoldable pub contains : List DomainId → DomainId → Bool
contains [] a = false
contains (x ∷ xs) a = x == a || contains xs a

-- The loop of `ValidateGuideDraftContent` from a given index.
unfoldable pub validate_steps : ℕ → List GuideStep → List DomainId → Res (Unit {0})
validate_steps index [] allowed = ok tt
validate_steps index (step ∷ steps) allowed =
    let rest = validate_steps (index + 1) steps allowed in
    if step.position != index + 1
    then fail validation_error
    else elim (validate_text step.instruction 1 120 true) [
      | err e ↦ err e
      | ok _ ↦ if not (contains allowed step.artifact_id) then fail validation_error else rest
    ]

unfoldable pub validate_draft_content : Str → List GuideStep → List DomainId → Res (Unit {0})
validate_draft_content title steps allowed = do
  _ ← validate_text title 1 40 true
  if ltb (length steps) 1 || ltb max_guide_steps (length steps)
      then fail validation_error
      else validate_steps 0 steps allowed

pub record GeneratedGuideStep : Type 0 where
  pub source_artifact_id : DomainId
  pub instruction : Str

pub record GeneratedGuide : Type 0 where
  pub title : Str
  pub steps : List GeneratedGuideStep

-- The loop of `ValidateGeneratedGuide`, which numbers the steps.
unfoldable pub number_steps : ℕ → List GeneratedGuideStep → List GuideStep
number_steps index [] = []
number_steps index (s ∷ steps) =
    record { position = index + 1; artifact_id = s.source_artifact_id; instruction = s.instruction }
    ∷ number_steps (index + 1) steps

unfoldable pub validate_generated_guide : GeneratedGuide → List DomainId → Res (Unit {0})
validate_generated_guide output allowed =
    validate_draft_content output.title (number_steps 0 output.steps) allowed

validate_each : List GeneratedGuide → List DomainId → Res (Unit {0})
validate_each [] allowed = ok tt
validate_each (g ∷ gs) allowed =
    let rest = validate_each gs allowed in
    elim (validate_generated_guide g allowed) [ err e ↦ err e | ok _ ↦ rest ]

unfoldable pub validate_generated_guides : List GeneratedGuide → List DomainId → Res (Unit {0})
unfolding validate_each
validate_generated_guides outputs allowed =
    if length outputs == 0 then fail validation_error else validate_each outputs allowed

-- `for index := range indexes { indexes[index] = f(index) }`, from a given index.
unfoldable pub fill : (ℕ → ℕ) → ℕ → ℕ → List ℕ
fill f index zero = []
fill f index (suc n) = f index ∷ fill f (index + 1) n

unfoldable pub select_material_indexes : ℕ → List ℕ
select_material_indexes total =
    if leb total 0
    then []
    else if leb total max_ai_input_materials
    then fill (λ index. index) 0 total
    else fill (λ index. index * (total - 1) / (max_ai_input_materials - 1)) 0 max_ai_input_materials

-- ===== src/Domain/Enums/Guide.antt =====
-- The string types of server/internal/domain/status.go and idempotency.go about guides and keys. `other` holds a string that
-- is none of the constants.
use mite.Prelude.{◌≡◌, ◌↔◌, Bool, true, false, arith, Eq}
use mite.Text.{Str, str_eq, str_eq_iff}

pub data GuideGenerationJobStatus : Type 0 where
  queued running succeeded failed : GuideGenerationJobStatus
  other : Str → GuideGenerationJobStatus

abbrev guide_generation_job_status_eq : GuideGenerationJobStatus → GuideGenerationJobStatus → Bool
guide_generation_job_status_eq GuideGenerationJobStatus.queued GuideGenerationJobStatus.queued =
    true
guide_generation_job_status_eq GuideGenerationJobStatus.running GuideGenerationJobStatus.running =
    true
guide_generation_job_status_eq GuideGenerationJobStatus.succeeded
      GuideGenerationJobStatus.succeeded =
    true
guide_generation_job_status_eq GuideGenerationJobStatus.failed GuideGenerationJobStatus.failed =
    true
guide_generation_job_status_eq (GuideGenerationJobStatus.other s)
      (GuideGenerationJobStatus.other t) =
    str_eq s t
guide_generation_job_status_eq _ _ = false

pub guide_generation_job_status_eq_iff :
    (a b : GuideGenerationJobStatus) → (guide_generation_job_status_eq a b ≡ true) ↔ (a ≡ b)
guide_generation_job_status_eq_iff (GuideGenerationJobStatus.other s)
      (GuideGenerationJobStatus.other t) =
    ground (arith, str_eq_iff s t)
guide_generation_job_status_eq_iff _ _ = ground arith

instance abbrev pub eq_guide_generation_job_status : Eq GuideGenerationJobStatus
eq_guide_generation_job_status = record {
  test = guide_generation_job_status_eq;
  test_iff = guide_generation_job_status_eq_iff;
}

pub data GuideDraftStatus : Type 0 where
  editing saved : GuideDraftStatus
  other : Str → GuideDraftStatus

abbrev guide_draft_status_eq : GuideDraftStatus → GuideDraftStatus → Bool
guide_draft_status_eq GuideDraftStatus.editing GuideDraftStatus.editing = true
guide_draft_status_eq GuideDraftStatus.saved GuideDraftStatus.saved = true
guide_draft_status_eq (GuideDraftStatus.other s) (GuideDraftStatus.other t) = str_eq s t
guide_draft_status_eq _ _ = false

pub guide_draft_status_eq_iff :
    (a b : GuideDraftStatus) → (guide_draft_status_eq a b ≡ true) ↔ (a ≡ b)
guide_draft_status_eq_iff (GuideDraftStatus.other s) (GuideDraftStatus.other t) =
    ground (arith, str_eq_iff s t)
guide_draft_status_eq_iff _ _ = ground arith

instance abbrev pub eq_guide_draft_status : Eq GuideDraftStatus
eq_guide_draft_status = record {
  test = guide_draft_status_eq;
  test_iff = guide_draft_status_eq_iff;
}

pub data GuideRunStatus : Type 0 where
  in_progress completed cancelled paused_for_support : GuideRunStatus
  other : Str → GuideRunStatus

abbrev guide_run_status_eq : GuideRunStatus → GuideRunStatus → Bool
guide_run_status_eq GuideRunStatus.in_progress GuideRunStatus.in_progress = true
guide_run_status_eq GuideRunStatus.completed GuideRunStatus.completed = true
guide_run_status_eq GuideRunStatus.cancelled GuideRunStatus.cancelled = true
guide_run_status_eq GuideRunStatus.paused_for_support GuideRunStatus.paused_for_support = true
guide_run_status_eq (GuideRunStatus.other s) (GuideRunStatus.other t) = str_eq s t
guide_run_status_eq _ _ = false

pub guide_run_status_eq_iff : (a b : GuideRunStatus) → (guide_run_status_eq a b ≡ true) ↔ (a ≡ b)
guide_run_status_eq_iff (GuideRunStatus.other s) (GuideRunStatus.other t) =
    ground (arith, str_eq_iff s t)
guide_run_status_eq_iff _ _ = ground arith

instance abbrev pub eq_guide_run_status : Eq GuideRunStatus
eq_guide_run_status = record { test = guide_run_status_eq; test_iff = guide_run_status_eq_iff }

pub data GuideMaterialBatchStatus : Type 0 where
  uploading completed : GuideMaterialBatchStatus
  other : Str → GuideMaterialBatchStatus

abbrev guide_material_batch_status_eq : GuideMaterialBatchStatus → GuideMaterialBatchStatus → Bool
guide_material_batch_status_eq GuideMaterialBatchStatus.uploading
      GuideMaterialBatchStatus.uploading =
    true
guide_material_batch_status_eq GuideMaterialBatchStatus.completed
      GuideMaterialBatchStatus.completed =
    true
guide_material_batch_status_eq (GuideMaterialBatchStatus.other s)
      (GuideMaterialBatchStatus.other t) =
    str_eq s t
guide_material_batch_status_eq _ _ = false

pub guide_material_batch_status_eq_iff :
    (a b : GuideMaterialBatchStatus) → (guide_material_batch_status_eq a b ≡ true) ↔ (a ≡ b)
guide_material_batch_status_eq_iff (GuideMaterialBatchStatus.other s)
      (GuideMaterialBatchStatus.other t) =
    ground (arith, str_eq_iff s t)
guide_material_batch_status_eq_iff _ _ = ground arith

instance abbrev pub eq_guide_material_batch_status : Eq GuideMaterialBatchStatus
eq_guide_material_batch_status = record {
  test = guide_material_batch_status_eq;
  test_iff = guide_material_batch_status_eq_iff;
}

pub data ArtifactPurpose : Type 0 where
  request_screenshot guide_material guide_step : ArtifactPurpose
  other : Str → ArtifactPurpose

abbrev artifact_purpose_eq : ArtifactPurpose → ArtifactPurpose → Bool
artifact_purpose_eq ArtifactPurpose.request_screenshot ArtifactPurpose.request_screenshot = true
artifact_purpose_eq ArtifactPurpose.guide_material ArtifactPurpose.guide_material = true
artifact_purpose_eq ArtifactPurpose.guide_step ArtifactPurpose.guide_step = true
artifact_purpose_eq (ArtifactPurpose.other s) (ArtifactPurpose.other t) = str_eq s t
artifact_purpose_eq _ _ = false

pub artifact_purpose_eq_iff : (a b : ArtifactPurpose) → (artifact_purpose_eq a b ≡ true) ↔ (a ≡ b)
artifact_purpose_eq_iff (ArtifactPurpose.other s) (ArtifactPurpose.other t) =
    ground (arith, str_eq_iff s t)
artifact_purpose_eq_iff _ _ = ground arith

instance abbrev pub eq_artifact_purpose : Eq ArtifactPurpose
eq_artifact_purpose = record { test = artifact_purpose_eq; test_iff = artifact_purpose_eq_iff }

pub data GuideRunAction : Type 0 where
  next previous : GuideRunAction
  other : Str → GuideRunAction

abbrev guide_run_action_eq : GuideRunAction → GuideRunAction → Bool
guide_run_action_eq GuideRunAction.next GuideRunAction.next = true
guide_run_action_eq GuideRunAction.previous GuideRunAction.previous = true
guide_run_action_eq (GuideRunAction.other s) (GuideRunAction.other t) = str_eq s t
guide_run_action_eq _ _ = false

pub guide_run_action_eq_iff : (a b : GuideRunAction) → (guide_run_action_eq a b ≡ true) ↔ (a ≡ b)
guide_run_action_eq_iff (GuideRunAction.other s) (GuideRunAction.other t) =
    ground (arith, str_eq_iff s t)
guide_run_action_eq_iff _ _ = ground arith

instance abbrev pub eq_guide_run_action : Eq GuideRunAction
eq_guide_run_action = record { test = guide_run_action_eq; test_iff = guide_run_action_eq_iff }

pub data IdempotencyStatus : Type 0 where
  in_progress completed : IdempotencyStatus
  other : Str → IdempotencyStatus

abbrev idempotency_status_eq : IdempotencyStatus → IdempotencyStatus → Bool
idempotency_status_eq IdempotencyStatus.in_progress IdempotencyStatus.in_progress = true
idempotency_status_eq IdempotencyStatus.completed IdempotencyStatus.completed = true
idempotency_status_eq (IdempotencyStatus.other s) (IdempotencyStatus.other t) = str_eq s t
idempotency_status_eq _ _ = false

pub idempotency_status_eq_iff :
    (a b : IdempotencyStatus) → (idempotency_status_eq a b ≡ true) ↔ (a ≡ b)
idempotency_status_eq_iff (IdempotencyStatus.other s) (IdempotencyStatus.other t) =
    ground (arith, str_eq_iff s t)
idempotency_status_eq_iff _ _ = ground arith

instance abbrev pub eq_idempotency_status : Eq IdempotencyStatus
eq_idempotency_status = record {
  test = idempotency_status_eq;
  test_iff = idempotency_status_eq_iff;
}

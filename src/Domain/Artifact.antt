-- ===== src/Domain/Artifact.antt =====
-- server/internal/domain/artifact.go, with the rules of artifact_support.go for images: the images,
-- and those that wait for their deletion.
use mite.Prelude.{
  ℕ, Bool, true, false, ◌||◌, Option, ◌==◌, Eq, ◌≡◌, ◌↔◌, arith, ◌++◌, not, fail_if, ltb, eq_nat,
  ◌!=◌, ◌>>=◌,
}
use mite.Text.{ascii, Str, eq_str, str_eq, str_eq_iff}
use mite.Domain.Errors.{Res, domain, validation_error}
use mite.Domain.Enums.{ArtifactPurpose}
use mite.Domain.Status.{purpose_valid}
use mite.Domain.Idempotency.{new_request_hash}
use mite.Domain.Value.{DomainId, new_id}
use mite.Domain.Support.{Time}

pub data ArtifactDeletionTaskStatus : Type 0 where
  pending running : ArtifactDeletionTaskStatus
  other : Str → ArtifactDeletionTaskStatus

abbrev deletion_status_eq : ArtifactDeletionTaskStatus → ArtifactDeletionTaskStatus → Bool
deletion_status_eq ArtifactDeletionTaskStatus.pending ArtifactDeletionTaskStatus.pending = true
deletion_status_eq ArtifactDeletionTaskStatus.running ArtifactDeletionTaskStatus.running = true
deletion_status_eq (ArtifactDeletionTaskStatus.other s) (ArtifactDeletionTaskStatus.other t) =
    str_eq s t
deletion_status_eq _ _ = false

pub deletion_status_eq_iff :
    (a b : ArtifactDeletionTaskStatus) → (deletion_status_eq a b ≡ true) ↔ (a ≡ b)
deletion_status_eq_iff (ArtifactDeletionTaskStatus.other s) (ArtifactDeletionTaskStatus.other t) =
    ground (arith, str_eq_iff s t)
deletion_status_eq_iff a b = ground arith

instance abbrev pub eq_deletion_status : Eq ArtifactDeletionTaskStatus
eq_deletion_status = record { test = deletion_status_eq; test_iff = deletion_status_eq_iff }

unfoldable pub deletion_status_valid : ArtifactDeletionTaskStatus → Bool
deletion_status_valid s =
    s == ArtifactDeletionTaskStatus.pending || s == ArtifactDeletionTaskStatus.running

pub record ArtifactDeletionTask : Type 0 where
  pub id : DomainId
  pub artifact_id : Option DomainId
  pub storage_key : Str
  pub status : ArtifactDeletionTaskStatus
  pub attempt : ℕ
  pub next_attempt_at : Time
  pub created_at : Time

-- `MaxArtifactBytes`.
abbrev pub max_artifact_bytes : ℕ
max_artifact_bytes = 10485760

pub record Artifact : Type 0 where
  pub id : DomainId
  pub owner_user_id : DomainId
  pub purpose : ArtifactPurpose
  pub mime_type : Str
  pub storage_key : Str
  pub sha256 : Str
  pub byte_size : ℕ
  pub width : ℕ
  pub height : ℕ
  pub captured_at : Time
  pub created_at : Time
  pub updated_at : Time
  pub revision : ℕ

unfoldable pub artifact_storage_key : DomainId → DomainId → Str
artifact_storage_key owner_user_id artifact_id =
    owner_user_id ++ ascii "/" ++ artifact_id ++ ascii ".jpg"

-- `Artifact.Validate`.
unfoldable pub artifact_validate : Artifact → Res (Unit {0})
unfolding artifact_storage_key
artifact_validate a = do
  _ ← new_id a.id
  _ ← new_id a.owner_user_id
  _ ← fail_if (not (purpose_valid a.purpose)) (domain validation_error)
  _ ← fail_if (a.mime_type != ascii "image/jpeg") (domain validation_error)
  _ ← fail_if (a.storage_key != artifact_storage_key a.owner_user_id a.id) (domain validation_error)
  _ ← new_request_hash a.sha256
  _ ← fail_if (ltb a.byte_size 1 || ltb max_artifact_bytes a.byte_size) (domain validation_error)
  _ ← fail_if (ltb a.width 1 || ltb a.height 1) (domain validation_error)
  _ ←
      fail_if
        (a.captured_at == 0
          || a.created_at == 0
          || a.updated_at == 0
          || ltb a.updated_at a.created_at)
        (domain validation_error)
  fail_if (ltb a.revision 1) (domain validation_error)

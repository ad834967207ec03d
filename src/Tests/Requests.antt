-- ===== src/Tests/Requests.antt =====
-- A user asks for support, and the family acknowledges.
use mite.Prelude.{
  ℕ, ◌≡◌, refl, sym, ap, true, Option, none, some, [], ◌∷◌, ok, List, write, ok-injective,
}
use mite.Text.{ascii, str_eq, eq_str}
use mite.Domain.Enums.{SupportRequestStatus, SupportAcknowledgementKind, ArtifactPurpose}
use mite.Domain.Value.{DomainId, validate_text}
use mite.Domain.Guide.{contains}
use mite.Domain.Artifact.{Artifact, artifact_validate}
use mite.Domain.Status.{purpose_valid}
use mite.Service.Idempotency.{new_in_progress_record}
use mite.Domain.Support.{SupportRequest}
use mite.Repository.{Db}
use mite.Repository.Requests
use mite.Service.Request.Create.{CreateSupportRequestInput, create_support_request}
use mite.Service.Request.Change.{UpdateSupportRequestAcknowledgementInput, acknowledge}
use mite.Service.Request.Orderly.{IsOrderly}
use mite.Service.Request.Reach.{Command, obey_all, obey_all-IsOrderly}
use mite.Tests.Sample.{grandmother, daughter, env, waiting, some_hash}
use mite.Tests.Calls.{machinery}

abbrev pub screenshot : Artifact
screenshot = record {
  id = ascii "a";
  owner_user_id = ascii "u";
  purpose = ArtifactPurpose.request_screenshot;
  mime_type = ascii "image/jpeg";
  storage_key = ascii "u/a.jpg";
  sha256 = some_hash;
  byte_size = 10;
  width = 1;
  height = 1;
  captured_at = 90;
  created_at = 90;
  updated_at = 90;
  revision = 1;
}

abbrev family : Db
family = record waiting {
  requests = λ id. none;
  artifacts = write (λ id. none) (ascii "a") (some screenshot);
  pairs = λ id. some (record { user_id = ascii "u"; family_id = ascii "f" });
}

abbrev asked : CreateSupportRequestInput
asked = record { initial_screenshot_artifact_id = ascii "a"; comment = []; request_id = ascii "q" }

abbrev at_once : UpdateSupportRequestAcknowledgementInput
at_once = record {
  kind = SupportAcknowledgementKind.now;
  estimated_support_at = none;
  expected_revision = 1;
}

abbrev known : List DomainId
known = ascii "request0" ∷ []

-- The user asks, asks again under another key, and the family answers.
abbrev story : List Command
story =
    Command.creates env 100 grandmother (ascii "k") asked
    ∷ Command.creates env 100 grandmother (ascii "k2") asked
    ∷ Command.acknowledges env daughter (ascii "request0") at_once
    ∷ []

abbrev row_of :
    Option SupportRequest → Option (SupportRequestStatus × Option SupportAcknowledgementKind × ℕ)
row_of none = none
row_of (some r) = some (r.status, r.acknowledgement_kind, r.revision)

acknowledged :
    row_of ((obey_all known story family).requests (ascii "request0"))
    ≡ some (SupportRequestStatus.pending, some SupportAcknowledgementKind.now, 2)
unfolding machinery acknowledge create_support_request validate_text new_in_progress_record
    artifact_validate purpose_valid Requests.finish_key
acknowledged = refl

family-IsOrderly : IsOrderly known family
family-IsOrderly = (((λ id s h. cc), (λ id r h. cc)), (λ id r h. cc), (λ i j r s h. cc))

issued : (id : DomainId) → env.new_id (ascii "request") 0 ≡ ok id → contains known id ≡ true
unfolding contains str_eq
issued id h = ap (contains known) (sym (ok-injective (ascii "request0") id h))

obey_all-IsOrderly_example : IsOrderly known (obey_all known story family)
obey_all-IsOrderly_example =
    obey_all-IsOrderly known story family (issued, (issued, tt)) family-IsOrderly

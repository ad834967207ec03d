-- ===== src/Repository/Sessions.antt =====
-- server/internal/repository/support_sessions.go with db/queries/support_sessions.sql: the rows of
-- support requests and support sessions. An `UPDATE … RETURNING` of no row is `pgx.ErrNoRows`.
use mathlib.Core.Option
use mite.Prelude.{
  ◌+◌, Bool, true, false, Option, none, some, List, [], ◌∷◌, ◌++◌, if◌then◌else◌, write, ◌==◌, ok,
  err,
}
use mite.Text.{Str, eq_str}
use mite.Domain.Errors.{Error, domain, fail, not_found, no_rows, failure}
use mite.Domain.Enums.{
  SupportRequestStatus, SupportSessionStatus, GuideDecision, SupportSessionEndReason,
  GuideGenerationJobStatus, eq_guide_decision,
}
use mite.Domain.Value.{DomainId}
use mite.Domain.Artifact.{ArtifactDeletionTask, ArtifactDeletionTaskStatus}
use mite.Domain.Support.{Time, SupportRequest, SupportSession, Consent}
use mite.Repository.{Tx, Query, CleanupArtifact, guarded, pure}

-- `WHERE id = $1`, by `sessionRepositoryError`.
abbrev pub found {ℓ} : {A : Type ℓ} → Option A → Tx A
found none db = (fail not_found, db)
found (some a) db = (ok a, db)

-- What an update writes into a row.
abbrev pub touch_request : Time → SupportRequest → SupportRequest
touch_request now r = record r { updated_at = now; revision = r.revision + 1 }

abbrev pub touch_session : Time → SupportSession → SupportSession
touch_session now s = record s { updated_at = now; revision = s.revision + 1 }

abbrev pub put_request : DomainId → Option SupportRequest → Tx SupportRequest
put_request id none db = (err no_rows, db)
put_request id (some r) db = (ok r, record db { requests = write db.requests id (some r) })

abbrev set_request : DomainId → (SupportRequest → SupportRequest) → Tx SupportRequest
set_request id f db = put_request id (Option.map f (db.requests id)) db

abbrev pub put_session : Error → DomainId → Option SupportSession → Tx SupportSession
put_session e id none db = (err e, db)
put_session e id (some s) db = (ok s, record db { sessions = write db.sessions id (some s) })

abbrev set_session : DomainId → (SupportSession → SupportSession) → Tx SupportSession
set_session id f db = put_session no_rows id (Option.map f (db.sessions id)) db

-- `INSERT`, unless the primary key is taken.
abbrev pub insert_session : Option SupportSession → SupportSession → Tx SupportSession
insert_session none row db = put_session failure row.id (some row) db
insert_session (some s) row db = (err failure, db)

-- `SessionResolveWithGuide` or `SessionResolveWithoutGuide`.
abbrev pub resolved : GuideDecision → Time → SupportSession → SupportSession
resolved decision now s =
    if decision == GuideDecision.create
    then record (touch_session now s) {
      status = SupportSessionStatus.generating_guide;
      guide_decision = some GuideDecision.create;
    }
    else record (touch_session now s) {
      status = SupportSessionStatus.ended;
      guide_decision = some GuideDecision.skip;
      ended_at = some now;
      end_reason = some SupportSessionEndReason.guide_skipped;
    }

-- `ON CONFLICT (storage_key) DO NOTHING`.
abbrev has_key : Str → List ArtifactDeletionTask → Bool
has_key k [] = false
has_key k (t ∷ ts) = if t.storage_key == k then true else has_key k ts

-- A table of lists or flags loses one entry.
abbrev clear {ℓ} : {A : Type ℓ} → (DomainId → A) → DomainId → A → DomainId → A
clear t k empty j = if k == j then empty else t j

abbrev pub saved_end : Time → SupportSession → SupportSession
saved_end now s = record (touch_session now s) {
  status = SupportSessionStatus.ended;
  ended_at = some now;
  end_reason = some SupportSessionEndReason.guide_saved;
}

-- The section's parameter says which statements PostgreSQL refuses.
module _ (refuses : Query → Bool) where
  unfoldable pub get_request : DomainId → Tx SupportRequest
  get_request id db = guarded (refuses Query.get_request) (found (db.requests id)) db

  unfoldable pub get_session : DomainId → Tx SupportSession
  get_session id db = guarded (refuses Query.get_session) (found (db.sessions id)) db

  unfoldable pub lock_request : DomainId → Tx SupportRequest
  lock_request id db = guarded (refuses Query.lock_request) (found (db.requests id)) db

  unfoldable pub lock_session : DomainId → Tx SupportSession
  lock_session id db = guarded (refuses Query.lock_session) (found (db.sessions id)) db

  -- `SessionCreateSupportSession` sets the columns it names; the id is the primary key.
  unfoldable pub create_session : SupportSession → Tx SupportSession
  create_session value db =
      let row = record value {
        status = SupportSessionStatus.ringing;
        guide_decision = none;
        guide_material_batch_id = none;
        guide_generation_job_id = none;
        guide_draft_id = none;
        guide_id = none;
        consent = none;
        consented_at = none;
        started_at = none;
        ended_at = none;
        end_reason = none;
        updated_at = value.created_at;
        revision = 1;
      } in
      guarded (refuses Query.create_session) (insert_session (db.sessions value.id) row) db

  unfoldable pub attach_session : DomainId → DomainId → Time → Tx SupportRequest
  attach_session request_id session_id now = guarded (refuses Query.attach_session) (
      set_request request_id
        (λ r. record (touch_request now r) { support_session_id = some session_id }))

  unfoldable pub activate_request : DomainId → Time → Tx SupportRequest
  activate_request id now = guarded (refuses Query.activate_request) (
      set_request id
        (λ r. record (touch_request now r) { status = SupportRequestStatus.in_support }))

  unfoldable pub activate_session : DomainId → Consent → Time → Tx SupportSession
  activate_session id consent now = guarded (refuses Query.activate_session) (
      set_session id (λ s. record (touch_session now s) {
        status = SupportSessionStatus.active;
        consent = some consent;
        consented_at = some now;
        started_at = some now;
      }))

  unfoldable pub resolve_request : DomainId → Time → Tx SupportRequest
  resolve_request id now = guarded (refuses Query.resolve_request) (
      set_request id (λ r. record (touch_request now r) { status = SupportRequestStatus.resolved }))

  unfoldable pub resolve_session : DomainId → GuideDecision → Time → Tx SupportSession
  resolve_session id decision now =
      guarded (refuses Query.resolve_session) (set_session id (resolved decision now))

  unfoldable pub job_status : DomainId → Tx GuideGenerationJobStatus
  job_status id db =
      guarded (refuses Query.job_status) (found (Option.map (λ job. job.status) (db.jobs id))) db

  unfoldable pub cleanup_artifacts : DomainId → Tx (List CleanupArtifact)
  cleanup_artifacts batch_id db =
      guarded (refuses Query.cleanup_artifacts) (pure (db.materials batch_id)) db

  unfoldable pub queue_deletion : DomainId → CleanupArtifact → Time → Tx (Unit {0})
  queue_deletion task_id a now = guarded (refuses Query.queue_deletion) (λ db. (
    ok tt,
    if has_key a.storage_key db.deletions then db else record db {
      deletions =
          db.deletions
          ++ record {
            id = task_id;
            artifact_id = some a.id;
            storage_key = a.storage_key;
            status = ArtifactDeletionTaskStatus.pending;
            attempt = 0;
            next_attempt_at = now;
            created_at = now;
          }
            ∷ [];
    },
  ))

  unfoldable pub end_without_guide : DomainId → SupportSessionEndReason → Time → Tx SupportSession
  end_without_guide id reason now = guarded (refuses Query.end_without_guide) (
      set_session id (λ s. record (touch_session now s) {
        status = SupportSessionStatus.ended;
        guide_material_batch_id = none;
        guide_generation_job_id = none;
        guide_draft_id = none;
        guide_id = none;
        ended_at = some now;
        end_reason = some reason;
      }))

  -- A missing row is `NOT_FOUND` here, by `sessionRepositoryError`.
  unfoldable pub end_saved_guide : DomainId → Time → Tx SupportSession
  end_saved_guide id now =
      guarded (refuses Query.end_saved_guide)
        (λ db. put_session (domain not_found) id (Option.map (saved_end now) (db.sessions id)) db)

  unfoldable pub delete_job : DomainId → Tx (Unit {0})
  delete_job id =
      guarded (refuses Query.delete_job) (λ db. (ok tt, record db { jobs = write db.jobs id none }))

  unfoldable pub delete_materials : DomainId → Tx (Unit {0})
  delete_materials id =
      guarded (refuses Query.delete_materials)
        (λ db. (ok tt, record db { materials = clear db.materials id [] }))

  unfoldable pub delete_batch : DomainId → Tx (Unit {0})
  delete_batch id =
      guarded (refuses Query.delete_batch)
        (λ db. (ok tt, record db { batches = clear db.batches id none }))

  unfoldable pub delete_drafts : DomainId → Tx (Unit {0})
  delete_drafts session_id =
      guarded (refuses Query.delete_drafts)
        (λ db. (ok tt, record db { drafts = clear db.drafts session_id [] }))

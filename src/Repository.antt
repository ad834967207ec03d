-- ===== src/Repository.antt =====
-- The database as the services see it (server/internal/repository and the statements of
-- server/db/queries that it runs): tables, statements, and transactions that roll back.
pub mod Sessions
pub mod Keys
pub mod Bind
pub mod Deletions
pub mod Runs
pub mod Requests
pub mod Leaves
pub mod Companion
pub mod Generation
use mite.Prelude.{
  ℕ, ◌+◌, Bool, true, false, Option, none, some, List, [], ◌∷◌, if◌then◌else◌, Result, ok, err,
}
use mite.Text.{Str}
use mite.Domain.Errors.{Error, Res, failure}
use mite.Domain.Enums.{Role}
use mite.Domain.Value.{DomainId}
use mite.Domain.User.{UserPair}
use mite.Domain.Artifact.{Artifact, ArtifactDeletionTask}
use mite.Domain.Guide.{GuideRun, GuideGenerationJob, GuideDraft}
use mite.Domain.Companion.{UserPresence}
use mite.Domain.Support.{Time, SupportRequest, SupportSession}
use mite.Domain.Idempotency.{IdempotencyScope, IdempotencyRecord}

pub record CleanupArtifact : Type 0 where
  pub id : DomainId
  pub storage_key : Str

-- The tables. `job_ids` holds the ids under which `jobs` has had rows. `batches` has the session of
-- each batch. `materials` is the join that `SessionListCleanupArtifacts` reads, by batch; `drafts`
-- has the drafts of a session, and `users` the roles of the users. `step_counts` counts the steps of
-- a version of a guide, and `pairs` holds the pair of a member. `notified` has the rows of
-- `support_request_presence_notifications`.
pub record Db : Type 0 where
  pub requests : DomainId → Option SupportRequest
  pub sessions : DomainId → Option SupportSession
  pub jobs : DomainId → Option GuideGenerationJob
  pub job_ids : List DomainId
  pub batches : DomainId → Option DomainId
  pub materials : DomainId → List CleanupArtifact
  pub drafts : DomainId → List GuideDraft
  pub artifacts : DomainId → Option Artifact
  pub deletions : List ArtifactDeletionTask
  pub runs : DomainId → Option GuideRun
  pub step_counts : DomainId → ℕ → ℕ
  pub users : DomainId → Option Role
  pub pairs : DomainId → Option UserPair
  pub keys : IdempotencyScope → Option IdempotencyRecord
  pub presences : DomainId → Option UserPresence
  pub notified : List (DomainId × ℕ)

-- The statements. PostgreSQL may refuse each of them: the connection breaks, or a constraint of
-- supabase/migrations does not hold.
pub data Query : Type 0 where
  get_request lock_request get_session lock_session create_session attach_session : Query
  activate_request activate_session resolve_request resolve_session job_status : Query
  cleanup_artifacts queue_deletion end_saved_guide end_without_guide delete_job : Query
  delete_materials delete_batch delete_drafts : Query
  begin_key lock_key take_over_key complete_key commit : Query
  reset_tasks lock_next_task mark_running retry_task delete_artifact delete_task : Query
  lock_user find_pair has_active_request has_open_session lock_artifact : Query
  has_deletion_task insert_request unique_active acknowledge_request cancel_request : Query
  get_run lock_run lock_owner step_count get_pair move_run complete_run cancel_run : Query
  try_lock_key key_is_locked create_key : Query
  claim_job recover_jobs retry_job fail_job succeed_job get_job lock_job : Query
  session_by_job guide_session lock_guide_session generation_context : Query
  create_draft review_draft : Query
  lock_presence create_presence update_presence get_pending reserve current_epoch : Query

-- A transaction's work: what a failed statement leaves behind is rolled back by `transact`.
abbrev pub Tx {ℓ} : Type ℓ → Type ℓ
Tx A = Db → Res A × Db

-- What follows a step, by how the step ended.
abbrev pub go_on {ℓ κ} : {A : Type ℓ} {B : Type κ} → Res A × Db → (A → Tx B) → Res B × Db
go_on (ok a, db) f = f a db
go_on (err e, db) f = (err e, db)

infixl 5 ◌>>=◌ ◌>>◌
abbrev pub ◌>>=◌ {ℓ κ} : {A : Type ℓ} {B : Type κ} → Tx A → (A → Tx B) → Tx B
◌>>=◌ m f db = go_on (m db) f

abbrev pub ◌>>◌ {κ} : {B : Type κ} → Tx (Unit {0}) → Tx B → Tx B
m >> k = m >>= λ _. k

abbrev pub pure {ℓ} : {A : Type ℓ} → A → Tx A
pure a db = (ok a, db)

abbrev pub lift {ℓ} : {A : Type ℓ} → Res A → Tx A
lift r db = (r, db)

-- A statement that reads and writes unless it is refused.
abbrev pub guarded {ℓ} : {A : Type ℓ} → Bool → Tx A → Tx A
guarded true m db = (err failure, db)
guarded false m db = m db

-- The end of `WithinTransaction` and `WithinTx`: an error of the work or of the commit undoes
-- every write.
abbrev pub settle {ℓ} : {A : Type ℓ} → Bool → Db → Res A × Db → Res A × Db
settle commit_refused db (err e, db') = (err e, db)
settle true db (ok a, db') = (err failure, db)
settle false db (ok a, db') = (ok a, db')

unfoldable pub transact {ℓ} : {A : Type ℓ} → Bool → Tx A → Tx A
transact commit_refused work db = settle commit_refused db (work db)

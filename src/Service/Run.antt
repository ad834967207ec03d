-- ===== src/Service/Run.antt =====
-- The runs of guides in server/internal/service/guides.go: a user moves through the steps of a guide,
-- and completes or cancels the run.
pub mod Rows
pub mod Inside
pub mod Walk
pub mod Finish
pub mod Apart
use mite.Prelude.{
  ℕ, ◌+◌, Bool, true, false, ◌||◌, not, Option, none, some, List, [], ◌∷◌, ◌++◌, if◌then◌else◌, ltb,
  ◌==◌, ◌!=◌, eq_nat, Result, ok, err, fail_if,
}
use mite.Prelude
use mite.Text.{Str, ascii, eq_str}
use mite.Json.{Body, raw, run_body}
use mite.Domain.Errors.{
  Error, ErrorCode, Res, domain, operation, no_rows, failure, fail, not_found, internal_error,
  forbidden, revision_conflict, validation_error, invalid_state,
}
use mite.Domain.Enums.{Role, eq_role, GuideRunStatus, eq_guide_run_status, GuideRunAction}
use mite.Domain.Status.{action_valid}
use mite.Domain.Value.{DomainId}
use mite.Domain.User.{UserPair, Actor, actor_validate}
use mite.Domain.Guide.{GuideRun, move_guide_step, can_complete_guide_run}
use mite.Domain.Event.{Event, EventType, run_data}
use mite.Domain.Support.{Time}
use mite.Repository.{Db, Tx, Query, pure, lift, transact, ◌>>=◌, ◌>>◌}
use mite.Repository.Runs.{
  get_run, lock_owner, get_step_count, get_pair, move_run, complete_run, cancel_run,
}
use mite.Service.Env.{Outcome, Payload, revision_payload}
use mite.Service.Stored.{CommandMeta, translate_repository_error, idempotent}

unfoldable pub validate_actor_role : Actor → Role → Res (Unit {0})
unfolding actor_validate
validate_actor_role actor role =
    Prelude.◌>>=◌ (actor_validate actor) λ _. if actor.role != role then fail forbidden else ok tt

unfoldable pub check_revision : ℕ → ℕ → Res (Unit {0})
check_revision actual expected = if actual != expected then fail revision_conflict else ok tt

-- The event of a run, at the time that the clock then shows.
abbrev pub run_event : DomainId → Time → GuideRun → UserPair → Event
run_event event_id now run pair = record {
  event_id = event_id;
  type = EventType.guide_run_updated;
  occurred_at = now;
  entity_id = run.id;
  revision = run.revision;
  content = run_data run;
  audience = pair;
}

abbrev pub in_progress : GuideRun → Bool
in_progress run = run.status == GuideRunStatus.in_progress

-- `UpdateGuideRunCommand`.
pub record UpdateGuideRunCommand : Type 0 where
  pub actor : Actor
  pub run_id : DomainId
  pub expected_revision : ℕ
  pub action : GuideRunAction

-- What the transaction of an update ends with.
abbrev pub report_run : Res (GuideRun × List Event) × Db → Outcome GuideRun
report_run (err e, db) = (err (translate_repository_error e), db, [])
report_run (ok (run, events), db) = (ok run, db, events)

module _ (refuses : Query → Bool) where
  -- The run, read by its owner, locked, at the expected revision and in progress.
  unfoldable pub hold_run : Actor → DomainId → ℕ → Tx GuideRun
  unfolding get_run lock_owner check_revision
  hold_run actor id expected = do
    unlocked ← get_run refuses id false
    _ ← lift (fail_if (unlocked.user_id != actor.id) (domain forbidden))
    _ ← lock_owner refuses unlocked.user_id
    run ← get_run refuses id true
    _ ← lift (check_revision run.revision expected)
    _ ← lift (fail_if (not (in_progress run)) (domain invalid_state))
    pure run

-- `now` is the clock at the update, and `later` at the event, whose id is `event_id`.
module _ (refuses : Query → Bool) (now later : Time) (event_id : DomainId) where
  unfoldable pub tell : GuideRun → Tx (GuideRun × List Event)
  unfolding get_pair
  tell run = do
    pair ← get_pair refuses run.user_id
    pure (run, run_event event_id later run pair ∷ [])

  unfoldable pub move_held : GuideRunAction → GuideRun → Tx GuideRun
  unfolding get_step_count move_guide_step move_run
  move_held action run = do
    count ← get_step_count refuses run.guide_id run.guide_version_number
    next ← lift (move_guide_step run.current_step_number count action)
    move_run refuses run.id next now

  -- The transaction of `UpdateGuideRun`.
  unfoldable pub update_work : UpdateGuideRunCommand → Tx (GuideRun × List Event)
  unfolding hold_run move_held tell
  update_work command = do
    run ← hold_run refuses command.actor command.run_id command.expected_revision
    result ← move_held command.action run
    tell result

  unfoldable pub update_guide_run : UpdateGuideRunCommand → Db → Outcome GuideRun
  unfolding validate_actor_role action_valid update_work
  update_guide_run command db = elim (validate_actor_role command.actor Role.user) [
    | err e ↦ (err e, db, [])
    | ok _ ↦
        if ltb command.expected_revision 1 || not (action_valid command.action)
        then (fail validation_error, db, [])
        else report_run (transact (refuses Query.commit) (update_work command) db)
  ]

  unfoldable pub last_step : GuideRun → ℕ → Tx (Unit {0})
  unfolding can_complete_guide_run
  last_step run count =
      lift (
        fail_if (not (can_complete_guide_run run.current_step_number count)) (domain invalid_state))

  -- The end of a run: a completion only from the last step.
  unfoldable pub end_run : Bool → GuideRun → Tx GuideRun
  unfolding get_step_count last_step complete_run cancel_run
  end_run true run = cancel_run refuses run.id now
  end_run false run = get_step_count refuses run.guide_id run.guide_version_number >>= λ count.
      last_step run count >> complete_run refuses run.id now

  -- What `finishGuideRun` does inside `idempotent`.
  unfoldable pub finish_work : Actor → DomainId → ℕ → Bool → Tx (GuideRun × List Event)
  unfolding hold_run end_run tell
  finish_work actor id expected cancel = do
    run ← hold_run refuses actor id expected
    ended ← end_run cancel run
    tell ended

-- What reading the envelope of a run gives: a document of another shape leaves the zero value.
abbrev pub zero_run : GuideRun
zero_run = record {
  id = [];
  guide_id = [];
  guide_version_number = 0;
  user_id = [];
  status = GuideRunStatus.other [];
  current_step_number = 0;
  support_request_id = none;
  started_at = 0;
  completed_at = none;
  paused_at = none;
  updated_at = 0;
  revision = 0;
}

unfoldable pub run_of_body : Body → Res GuideRun
run_of_body (raw s) = err failure
run_of_body (run_body run) = ok run
run_of_body _ = ok zero_run

abbrev pub finish_path : DomainId → Bool → Str
finish_path id true = ascii "/v1/guide-runs/" ++ id ++ ascii "/cancel"
finish_path id false = ascii "/v1/guide-runs/" ++ id ++ ascii "/complete"

-- `begun` is the clock of `idempotent`, and `digest` is `HashCanonicalJSON`.
module _ (refuses : Query → Bool) (digest : Payload → Str) (begun now later : Time)
    (event_id : DomainId) where
  -- `finishGuideRun`: `CompleteGuideRun`, and with `cancel` `CancelGuideRun`.
  unfoldable pub finish_guide_run : CommandMeta → DomainId → ℕ → Bool → Db → Outcome GuideRun
  unfolding validate_actor_role finish_work run_of_body idempotent
  finish_guide_run meta id expected cancel db = elim (validate_actor_role meta.actor Role.user) [
    | err e ↦ (err e, db, [])
    | ok _ ↦
        if ltb expected 1
        then (fail validation_error, db, [])
        else idempotent run_body run_of_body refuses begun meta (finish_path id cancel)
            (digest (revision_payload expected)) 200
            (finish_work refuses now later event_id meta.actor id expected cancel) db
  ]

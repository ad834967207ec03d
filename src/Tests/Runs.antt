-- ===== src/Tests/Runs.antt =====
-- A user in the second of three steps of a guide.
use mite.Prelude.{
  ◌+◌, ◌≡◌, refl, ap, List, inl, inr, arith, Bool, true, false, none, some, [], ◌∷◌, ok, err,
  Option, write, write-cases,
}
use mite.Text.{Str, ascii, str_eq, eq_str, runes, all_space}
use mite.Domain.Enums.{GuideRunStatus, GuideRunAction}
use mite.Domain.Guide.{GuideRun}
use mite.Domain.User.{UserPair}
use mite.Domain.Value.{DomainId, new_id}
use mite.Repository.{Db, Query, transact}
use mite.Repository.Runs.{moved_run, cancelled_run, put_run}
use mite.Service.Run.{
  UpdateGuideRunCommand, update_guide_run, finish_work, finish_guide_run, finish_path, run_of_body,
  run_event, validate_actor_role,
}
use mite.Service.Run.Inside.{AreInside, Follows, update_guide_run-Keeps}
use mite.Service.Run.Walk.{walk, walk-completes, IsReady}
use mite.Tests.Sample.{waiting, grandmother, some_hash, env}
use mite.Tests.Calls.{machinery, valid_hash}
use mite.Json.{run_body}
use mite.Domain.Event.{Event}
use mite.Domain.Errors.{Res, operation, invalid_state, not_found}
use mite.Domain.Idempotency.{IdempotencyScope, scope_validate}
use mite.Repository.Keys.{create_key}
use mite.Service.Env.{Payload, Outcome}
use mite.Service.Idempotency.{new_in_progress_record}
use mite.Service.Session.Common.{idempotency_scope}
use mite.Service.Stored.{Answer, CommandMeta, answer_work}
use mite.Service.Stored.Retry.{answer_work-retry}
use mite.Service.Run.Finish.{finish_guide_run-Keeps}
use mite.Service.Run.Apart.{finish_work-IsApart}

abbrev second_step : GuideRun
second_step = record {
  id = ascii "r";
  guide_id = ascii "g";
  guide_version_number = 1;
  user_id = ascii "u";
  status = GuideRunStatus.in_progress;
  current_step_number = 2;
  support_request_id = none;
  started_at = 1;
  completed_at = none;
  paused_at = none;
  updated_at = 5;
  revision = 2;
}

abbrev family : UserPair
family = record { user_id = ascii "u"; family_id = ascii "f" }

abbrev reading : Db
reading = record waiting {
  runs = write (λ id. none) (ascii "r") (some second_step);
  step_counts = λ id version. 3;
  pairs = λ id. some family;
}

abbrev up : Query → Bool
up query = false

abbrev go_next : UpdateGuideRunCommand
go_next = record {
  actor = grandmother;
  run_id = ascii "r";
  expected_revision = 2;
  action = GuideRunAction.next;
}

third_step :
    (update_guide_run up 9 9 (ascii "e") go_next reading).0 ≡ ok (moved_run 3 9 second_step)
unfolding update_guide_run validate_actor_role transact str_eq new_id runes all_space
third_step = refl

reading-AreInside : AreInside reading
reading-AreInside id run h =
    elim (write-cases (λ (j : DomainId). none) (ascii "r") id second_step run h) [
      | inl (e, same) ↦
          rw (e, same)
            (
              refl,
              omega arith,
              omega arith,
              λ (c : GuideRunStatus.in_progress ≡ GuideRunStatus.completed). cc,
            )
      | inr (apart, old) ↦ cc
    ]

update_guide_run-Keeps_example :
    AreInside (update_guide_run up 9 9 (ascii "e") go_next reading).1
    × ((j : DomainId)
        → Follows grandmother
            (ascii "r")
            2
            reading
            (update_guide_run up 9 9 (ascii "e") go_next reading).1
            j)
update_guide_run-Keeps_example =
    update_guide_run-Keeps up 9 9 (ascii "e") go_next reading reading-AreInside

abbrev asked : CommandMeta
asked = record { actor = grandmother; key = ascii "k"; request_id = ascii "q" }

abbrev digest : Payload → Str
digest payload = some_hash

-- The user cancels the run.
abbrev cancelled : Outcome GuideRun
cancelled = finish_guide_run up digest 9 9 9 (ascii "e") asked (ascii "r") 2 true reading

cancels : cancelled.0 ≡ ok (cancelled_run 9 second_step)
unfolding machinery finish_guide_run create_key new_in_progress_record
cancels = refl

-- Too early a completion is refused, and the refusal is stored.
refuses_early :
    (finish_guide_run up digest 9 9 9 (ascii "e") asked (ascii "r") 2 false reading).0
    ≡ err (operation invalid_state (ascii "q"))
unfolding machinery finish_guide_run create_key new_in_progress_record
refuses_early = refl

-- A run at the last step whose user is in no pair: the completion stands, and the caller is told that
-- nothing was found.
abbrev alone : Db
alone = record reading {
  runs = write (λ id. none) (ascii "r") (some (record second_step { current_step_number = 3 }));
  pairs = λ id. none;
}

abbrev unpaired : Outcome GuideRun
unpaired = finish_guide_run up digest 9 9 9 (ascii "e") asked (ascii "r") 2 false alone

status_of : Option GuideRun → Option GuideRunStatus
status_of none = none
status_of (some run) = some run.status

completes_unpaired :
    (unpaired.0 ≡ err (operation not_found (ascii "q")))
    × (status_of (unpaired.1.runs (ascii "r")) ≡ some GuideRunStatus.completed)
unfolding machinery finish_guide_run create_key new_in_progress_record status_of
completes_unpaired = (refl, refl)

finish_guide_run-Keeps_example :
    AreInside cancelled.1
    × ((j : DomainId) → Follows grandmother (ascii "r") 2 reading cancelled.1 j)
finish_guide_run-Keeps_example =
    finish_guide_run-Keeps up digest 9 9 9 (ascii "e") asked (ascii "r") 2 true reading
      reading-AreInside

abbrev cancel_scope : IdempotencyScope
cancel_scope = idempotency_scope grandmother (finish_path (ascii "r") true) (ascii "k")

valid_scope : scope_validate cancel_scope ≡ ok tt
unfolding machinery
valid_scope = refl

abbrev first : Res (Answer GuideRun) × Db
first =
    answer_work run_body run_of_body up 9 cancel_scope (ascii "q") some_hash 200
      (finish_work up 9 9 (ascii "e") grandmother (ascii "r") 2 true) reading

abbrev told : List Event
told = run_event (ascii "e") 9 (cancelled_run 9 second_step) family ∷ []

first_answer : first.0 ≡ ok (ok (cancelled_run 9 second_step), told)
unfolding machinery finish_guide_run create_key new_in_progress_record
first_answer = refl

first_work : first ≡ (ok (ok (cancelled_run 9 second_step), told), first.1)
first_work = ap (λ (x : Res (Answer GuideRun)). (x, first.1)) first_answer

-- Sent again, a while later, with another work.
answer_work-retry_example :
    answer_work run_body run_of_body up 999 cancel_scope
      (ascii "z")
      some_hash
      201
      (finish_work up 9 9 (ascii "e") grandmother (ascii "r") 3 false)
      first.1
    ≡ (ok (ok (cancelled_run 9 second_step), []), first.1)
answer_work-retry_example =
    answer_work-retry run_body run_of_body (λ run. refl) (λ run. (unfold run_of_body in refl))
      cancel_scope some_hash valid_scope valid_hash (record env { now = 9 })
      (record env { now = 999 }) (ascii "q") (ascii "z") 200 201
      (finish_work up 9 9 (ascii "e") grandmother (ascii "r") 2 true)
      (finish_work up 9 9 (ascii "e") grandmother (ascii "r") 3 false) reading first.1 first.1
      (ok (cancelled_run 9 second_step)) told (omega arith)
      (finish_work-IsApart up 9 9 (ascii "e") grandmother (ascii "r") 2 true) first_work refl
      (λ query. refl)

reading-IsReady : IsReady grandmother (ascii "r") 1 reading second_step family
unfolding str_eq validate_actor_role new_id runes all_space
reading-IsReady =
    (refl, refl, refl, refl, refl, refl, refl, omega arith, omega arith, refl, omega arith)

walk-completes_example :
    (last : GuideRun) × (finish_work up 9 9
        (ascii "e")
        grandmother
        (ascii "r")
        (2 + 1)
        false
        (walk up 9 9 (ascii "e") (λ query. refl) 1 grandmother (ascii "r") 2 reading)
      ≡ (
        ok (last, run_event (ascii "e") 9 last family ∷ []),
        put_run last.id last
            (walk up 9 9 (ascii "e") (λ query. refl) 1 grandmother (ascii "r") 2 reading),
      ))
    × (last.id ≡ ascii "r")
    × (last.status ≡ GuideRunStatus.completed)
    × (last.revision ≡ 2 + 1 + 1)
walk-completes_example =
    walk-completes up 9 9 (ascii "e") (λ query. refl) grandmother (ascii "r") family 1 reading
      second_step reading-IsReady

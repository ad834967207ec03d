-- ===== src/Service/Run/Walk.antt =====
-- A user who goes through a guide to its end (server/internal/service/guides.go).
use mathlib.Core.Path.{subst}
use mite.Prelude.{
  ℕ, zero, suc, ◌+◌, ◌≤◌, ◌≡◌, refl, inl, ◌∙◌, sym, ap, arith, Bool, true, false, not, ◌||◌, some,
  [], ◌∷◌, ok, ◌==◌, ◌!=◌, ==_refl, eq_nat, ltb, write, write_self,
}
use mite.Text.{Str, eq_str}
use mite.Domain.Enums.{Role, GuideRunStatus, GuideRunAction, eq_guide_run_status}
use mite.Domain.Status.{action_valid}
use mite.Domain.Value.{DomainId}
use mite.Domain.User.{UserPair, Actor}
use mite.Domain.Guide.{GuideRun, move_guide_step, can_complete_guide_run}
use mite.Domain.Guide.Steps.{move_guide_step_iff}
use mite.Domain.Support.{Time}
use mite.Repository.{Db, Query, transact}
use mite.Repository.Runs.{
  put_run, moved_run, completed_run, get_run, lock_owner, get_step_count, get_pair, move_run,
  complete_run, update_run,
}
use mite.Service.Run.{
  validate_actor_role, check_revision, hold_run, tell, move_held, update_work, update_guide_run,
  last_step, end_run, finish_work, run_event,
}
use mite.Service.Run.Rows.{step_total, open_still}

-- A user may go on with a run that is k steps before the end of a guide of at most eight steps.
abbrev pub IsReady : Actor → DomainId → ℕ → Db → GuideRun → UserPair → Type 0
IsReady actor id k db run pair =
    (validate_actor_role actor Role.user ≡ ok tt)
    × (db.runs id ≡ some run)
    × (run.id ≡ id)
    × (run.user_id ≡ actor.id)
    × (run.status ≡ GuideRunStatus.in_progress)
    × (db.users run.user_id ≡ some Role.user)
    × (db.pairs run.user_id ≡ some pair)
    × (1 ≤ run.revision)
    × (1 ≤ run.current_step_number)
    × (run.current_step_number + k ≡ step_total db run)
    × (step_total db run ≤ 8)

not_other : (a b : Str) → a ≡ b → (a != b) ≡ false
not_other a b e = let r = ==_refl a in let k = ap (λ (x : Str). a == x) e in ground arith

not_changed : (a : ℕ) → (a != a) ≡ false
not_changed a = let r = ==_refl a in ground arith

may_move :
    (revision : ℕ)
    → 1 ≤ revision
    → (ltb revision 1 || not (action_valid GuideRunAction.next)) ≡ false
unfolding action_valid
may_move revision h = ground arith

next_step :
    (current total k : ℕ)
    → 1 ≤ current
    → current + suc k ≡ total
    → total ≤ 8
    → move_guide_step current total GuideRunAction.next ≡ ok (current + 1)
next_step current total k low far high =
    (move_guide_step_iff current total (current + 1) GuideRunAction.next).1
      (high, low, omega arith, omega arith, omega arith, inl (refl, refl))

last_one :
    (current total : ℕ)
    → 1 ≤ current
    → current + 0 ≡ total
    → total ≤ 8
    → can_complete_guide_run current total ≡ true
unfolding can_complete_guide_run
last_one current total low far high = ground arith

module _ (refuses : Query → Bool) (now later : Time) (event_id : DomainId)
    (quiet : (query : Query) → refuses query ≡ false) where
  -- Requests for the next step, each at the revision that the one before it returned.
  unfoldable pub walk : ℕ → Actor → DomainId → ℕ → Db → Db
  walk zero actor id revision db = db
  walk (suc k) actor id revision db =
      walk k actor id (revision + 1)
        (update_guide_run refuses now later event_id
          (record {
            actor = actor;
            run_id = id;
            expected_revision = revision;
            action = GuideRunAction.next;
          })
          db).1

  module _ (actor : Actor) (id : DomainId) (pair : UserPair) where
    hold_run-ready :
        (k : ℕ) (db : Db) (run : GuideRun)
        → IsReady actor id k db run pair
        → hold_run refuses actor id run.revision db ≡ (ok run, db)
    unfolding hold_run get_run lock_owner check_revision
    hold_run-ready k db run r =
        rw
          (
            quiet Query.get_run,
            r.1,
            not_other run.user_id actor.id r.3,
            quiet Query.lock_owner,
            r.5,
            quiet Query.lock_run,
            r.1,
            not_changed run.revision,
            open_still run r.4,
          )
          refl

    update-ready :
        (k : ℕ) (db : Db) (run : GuideRun)
        → IsReady actor id (suc k) db run pair
        → (update_guide_run refuses now later event_id
            (record {
              actor = actor;
              run_id = id;
              expected_revision = run.revision;
              action = GuideRunAction.next;
            })
            db).1
          ≡ put_run run.id (moved_run (run.current_step_number + 1) now run) db
    unfolding update_guide_run update_work move_held get_step_count move_run tell get_pair transact
    update-ready k db run r =
        rw
          (
            update_guide_run,
            r.0,
            may_move run.revision r.7,
            update_work,
            hold_run-ready (suc k) db run r,
            move_held,
            quiet Query.step_count,
            next_step run.current_step_number (step_total db run) k r.8 r.9 r.10,
            quiet Query.move_run,
            ap db.runs r.2 ∙ r.1,
            update_run,
            tell,
            quiet Query.get_pair,
            r.6,
            quiet Query.commit,
          )
          refl

    finish-ready :
        (db : Db) (run : GuideRun)
        → IsReady actor id 0 db run pair
        → finish_work refuses now later event_id actor id run.revision false db ≡ (
          ok (completed_run now run, run_event event_id later (completed_run now run) pair ∷ []),
          put_run run.id (completed_run now run) db,
        )
    unfolding finish_work end_run last_step get_step_count complete_run tell get_pair
    finish-ready db run r =
        rw
          (
            hold_run-ready 0 db run r,
            quiet Query.step_count,
            last_step,
            last_one run.current_step_number (step_total db run) r.8 r.9 r.10,
            quiet Query.complete_run,
            ap db.runs r.2 ∙ r.1,
            update_run,
            quiet Query.get_pair,
            r.6,
          )
          refl

    next-IsReady :
        (k : ℕ) (db : Db) (run : GuideRun)
        → IsReady actor id (suc k) db run pair
        → IsReady actor id k
            (put_run run.id (moved_run (run.current_step_number + 1) now run) db)
            (moved_run (run.current_step_number + 1) now run)
            pair
    next-IsReady k db run r =
        let moved = moved_run (run.current_step_number + 1) now run in
        (
          r.0,
          ap (write db.runs run.id (some moved)) (sym r.2) ∙ write_self db.runs run.id (some moved),
          r.2,
          r.3,
          r.4,
          r.5,
          r.6,
          omega arith,
          omega arith,
          omega (arith, r.9),
          r.10,
        )

    walk-IsReady :
        (k : ℕ) (db : Db) (run : GuideRun)
        → IsReady actor id k db run pair
        → (last : GuideRun) × IsReady actor id 0 (walk k actor id run.revision db) last pair
          × (last.revision ≡ run.revision + k)
    unfolding walk
    walk-IsReady zero db run r = (run, r, omega arith)
    walk-IsReady (suc k) db run r =
        let moved = moved_run (run.current_step_number + 1) now run in
        let rest = walk-IsReady k (put_run run.id moved db) moved (next-IsReady k db run r) in
        subst
          (λ (x : Db).
            (last : GuideRun) × IsReady actor id 0 (walk k actor id (run.revision + 1) x) last pair
            × (last.revision ≡ run.revision + suc k))
          (sym (update-ready k db run r)) (rest.0, rest.1, omega (arith, rest.2))

    -- Where no statement is refused, a user with a row and a pair, whose run is in progress and is k
    -- steps before the end of a guide of at most eight steps, asks k times for the next step and then
    -- completes the run, each time at the current revision: the completion succeeds, with one event.
    pub walk-completes :
        (k : ℕ) (db : Db) (run : GuideRun)
        → IsReady actor id k db run pair
        → (last : GuideRun) × (finish_work refuses now later event_id actor id
              (run.revision + k)
              false
              (walk k actor id run.revision db)
            ≡ (
              ok (last, run_event event_id later last pair ∷ []),
              put_run last.id last (walk k actor id run.revision db),
            ))
          × (last.id ≡ id)
          × (last.status ≡ GuideRunStatus.completed)
          × (last.revision ≡ run.revision + k + 1)
    walk-completes k db run r =
        let (before, ready, revision) = walk-IsReady k db run r in
        (
          completed_run now before,
          rw⁻¹ revision (finish-ready (walk k actor id run.revision db) before ready),
          ready.2,
          refl,
          ap (λ (n : ℕ). n + 1) revision,
        )

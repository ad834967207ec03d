-- ===== src/Service/Run/Apart.antt =====
-- The work of `CompleteGuideRun` and `CancelGuideRun` of server/internal/service/guides.go leaves
-- `idempotency_records` alone.
use mite.Prelude.{
  ℕ, ◌≡◌, refl, ◌∙◌, Bool, true, false, Bool-cases, inl, inr, Option, none, some, ok, err, not,
  fail_if, [], ◌∷◌, ◌!=◌, ◌==◌,
}
use mite.Text.{eq_str}
use mite.Domain.Enums.{GuideRunStatus, eq_guide_run_status}
use mite.Domain.Errors.{Res, domain, forbidden, invalid_state}
use mite.Domain.Value.{DomainId}
use mite.Domain.User.{Actor}
use mite.Domain.Guide.{GuideRun}
use mite.Domain.Support.{Time}
use mite.Repository.{Db, Tx, Query, go_on, guarded, lift, pure, ◌>>=◌, ◌>>◌}
use mite.Repository.Runs.{
  one, update_run, get_run, lock_owner, get_step_count, get_pair, complete_run, cancel_run,
  completed_run, cancelled_run,
}
use mite.Service.Run.{
  hold_run, check_revision, in_progress, last_step, end_run, tell, finish_work, run_event,
}

abbrev pub IsApart {ℓ} : {A : Type ℓ} → Tx A → Type 0
IsApart m = (d : Db) → (m d).1.keys ≡ d.keys

module _ {ℓ κ} {A : Type ℓ} {B : Type κ} where
  after-IsApart :
      (x : Res A × Db) (k : A → Tx B) → ((a : A) → IsApart (k a)) → (go_on x k).1.keys ≡ x.1.keys
  after-IsApart (err e, d) k h = refl
  after-IsApart (ok a, d) k h = h a d

  bind-IsApart :
      (m : Tx A) (k : A → Tx B) → IsApart m → ((a : A) → IsApart (k a)) → IsApart (m >>= k)
  bind-IsApart m k h l d = after-IsApart (m d) k l ∙ h d

guarded-IsApart {ℓ} : {A : Type ℓ} (b : Bool) (m : Tx A) → IsApart m → IsApart (guarded b m)
guarded-IsApart true m h d = refl
guarded-IsApart false m h d = h d

one-IsApart {ℓ} : {A : Type ℓ} (o : Option A) → IsApart (one o)
one-IsApart none d = refl
one-IsApart (some a) d = refl

update_run-IsApart :
    (p : GuideRun → Bool) (f : GuideRun → GuideRun) (id : DomainId) (o : Option GuideRun)
    → IsApart (update_run p f id o)
update_run-IsApart p f id none d = refl
update_run-IsApart p f id (some run) d = elim (Bool-cases (p run)) [
  | inl b ↦ rw (b, update_run) refl
  | inr b ↦ rw (b, update_run) refl
]

module _ (refuses : Query → Bool) where
  get_run-IsApart : (id : DomainId) (lock : Bool) → IsApart (get_run refuses id lock)
  unfolding get_run
  get_run-IsApart id true d =
      guarded-IsApart (refuses Query.lock_run) (one (d.runs id)) (one-IsApart (d.runs id)) d
  get_run-IsApart id false d =
      guarded-IsApart (refuses Query.get_run) (one (d.runs id)) (one-IsApart (d.runs id)) d

  hold_run-IsApart :
      (actor : Actor) (id : DomainId) (expected : ℕ) → IsApart (hold_run refuses actor id expected)
  unfolding hold_run lock_owner
  hold_run-IsApart actor id expected =
      bind-IsApart (get_run refuses id false) _ (get_run-IsApart id false) λ unlocked.
        bind-IsApart (lift (fail_if (unlocked.user_id != actor.id) (domain forbidden))) _
          (λ d. refl)
          λ _.
            bind-IsApart (lock_owner refuses unlocked.user_id) _
              (λ d. guarded-IsApart (refuses Query.lock_owner) (one _) (one-IsApart _) d)
              λ _. bind-IsApart (get_run refuses id true) _ (get_run-IsApart id true) λ run.
                bind-IsApart (lift (check_revision run.revision expected)) _ (λ d. refl)
                  λ _.
                    bind-IsApart (lift (fail_if (not (in_progress run)) (domain invalid_state)))
                      (λ _. pure run) (λ d. refl) λ _ d. refl

  module _ (now later : Time) (event_id : DomainId) where
    end_run-IsApart :
        (cancel : Bool) (run : GuideRun) → IsApart (end_run refuses now later event_id cancel run)
    unfolding end_run cancel_run complete_run get_step_count last_step
    end_run-IsApart true run d =
        guarded-IsApart (refuses Query.cancel_run)
          (update_run (λ run. run.status == GuideRunStatus.in_progress) (cancelled_run now) run.id
            (d.runs run.id))
          (update_run-IsApart (λ run. run.status == GuideRunStatus.in_progress) (cancelled_run now)
            run.id (d.runs run.id))
          d
    end_run-IsApart false run d =
        bind-IsApart (get_step_count refuses run.guide_id run.guide_version_number)
          (λ count.
            last_step refuses now later event_id run count >> complete_run refuses run.id now)
          (λ d. guarded-IsApart (refuses Query.step_count) _ (λ d. refl) d)
          (λ count.
            bind-IsApart (last_step refuses now later event_id run count)
              (λ _. complete_run refuses run.id now) (λ d. refl)
              λ _ d.
                guarded-IsApart (refuses Query.complete_run)
                  (update_run (λ run. true) (completed_run now) run.id (d.runs run.id))
                  (update_run-IsApart (λ run. true) (completed_run now) run.id (d.runs run.id)) d)
          d

    pub finish_work-IsApart :
        (actor : Actor) (id : DomainId) (expected : ℕ) (cancel : Bool)
        → IsApart (finish_work refuses now later event_id actor id expected cancel)
    unfolding finish_work tell get_pair
    finish_work-IsApart actor id expected cancel =
        bind-IsApart (hold_run refuses actor id expected) _ (hold_run-IsApart actor id expected)
          λ run.
            bind-IsApart (end_run refuses now later event_id cancel run)
              (tell refuses now later event_id) (end_run-IsApart cancel run)
              λ ended.
                bind-IsApart (get_pair refuses ended.user_id)
                  (λ pair. pure (ended, run_event event_id later ended pair ∷ []))
                  (λ d. guarded-IsApart (refuses Query.get_pair) (one _) (one-IsApart _) d)
                  λ pair d. refl

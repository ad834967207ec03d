-- ===== src/Service/Generation/History.antt =====
-- What becomes of the generation jobs while the worker of server/internal/service/guide_worker.go runs, is
-- restarted, and failed jobs are retried (`RetryGuideGenerationJob` in guides.go).
use mathlib.Core.Path.{subst}
use mite.Prelude.{
  ap, ◌+◌, ◌≤◌, ◌≡◌, refl, ◌∙◌, sym, ◌⊎◌, inl, inr, arith, Bool, true, some, Bool-cases,
  Result-cases, ltb, ok, err, List, [], ◌∷◌, Option-cases,
}
use mite.Text.{Str}
use mite.Json.{job_body}
use mite.Domain.Errors.{Res}
use mite.Domain.Enums.{Role, GuideGenerationJobStatus}
use mite.Domain.Status.{job_can_transition, job_can_recover}
use mite.Domain.Value.{DomainId}
use mite.Domain.Event.{Event}
use mite.Domain.Guide.{GuideGenerationJob, error_code_valid}
use mite.Domain.Support.{Time}
use mite.Repository.{Db, Query, settle, transact}
use mite.Service.Env.{Payload, job_revision_payload}
use mite.Service.Run.{validate_actor_role}
use mite.Service.Stored.Keeps.{idempotent-Keeps}
use mite.Service.Generation.{
  AttemptError, generation_error_code, announced, recover, finish_failure, finish_success,
}
use mite.Service.Generation.Attempts.{
  RetryGuideGenerationJobCommand, retry_guide_generation_job, retry_work, retry_path, job_of_body,
}
use mite.Service.Generation.Actions.{JobAction, act, act_all}
use mite.Service.Generation.Retry.{retry_work-Evolves}
use mite.Service.Generation.Rows.{row_fits, row_fits-attempt, Change-fits, Change-allowed}
use mite.Service.Generation.Evolves.{IsFiled, Evolves, settle-Evolves}
use mite.Service.Generation.Works.{
  recover_work-Evolves, claim_work-Evolves, fail_work-IsEvolving, succeed_work-IsEvolving,
}

-- Every row has its key, and its columns fit its status as the table demands.
abbrev pub IsSound : Db → Type 0
IsSound db =
    (id : DomainId) (job : GuideGenerationJob)
    → db.jobs id ≡ some job
    → (job.id ≡ id) × (row_fits job ≡ true)

IsSound-IsFiled : (db : Db) → IsSound db → IsFiled db.jobs
IsSound-IsFiled db sound id job h = (sound id job h).0

announced-state : (x : Res (List Event) × Db) → (announced x).1 ≡ x.1
announced-state (err e, db) = refl
announced-state (ok events, db) = refl

-- The codes of failures are those that the table takes.
pub generation_error_code-valid :
    (expired : Bool) (e : AttemptError) → error_code_valid (generation_error_code expired e) ≡ true
unfolding generation_error_code error_code_valid
generation_error_code-valid expired e = elim (Option-cases e.code) [
  | inl n ↦ rw n (ground arith)
  | inr (code, n) ↦ rw n (ground arith)
]

announced-Evolves :
    (refused : Bool) (db : Db) (x : Res (List Event) × Db)
    → Evolves db.jobs x.1.jobs
    → Evolves db.jobs (announced (settle refused db x)).1.jobs
announced-Evolves refused db x h id =
    rw (announced-state (settle refused db x)) (settle-Evolves refused db x h id)

retry-Evolves :
    (refuses : Query → Bool) (now later : Time) (event_id : DomainId) (digest : Payload → Str)
    (begun : Time) (command : RetryGuideGenerationJobCommand) (db : Db)
    → IsFiled db.jobs
    → Evolves db.jobs
        (retry_guide_generation_job refuses now later event_id digest begun command db).1.jobs
unfolding retry_guide_generation_job
retry-Evolves refuses now later event_id digest begun command db filed =
    elim (Result-cases (validate_actor_role command.meta.actor Role.family)) [
      | inl (e, v) ↦ rw (retry_guide_generation_job, v) λ id. inl refl
      | inr (_, v) ↦ elim (Bool-cases (ltb command.expected_job_revision 1)) [
        | inl low ↦ rw (retry_guide_generation_job, v, low) λ id. inl refl
        | inr valid ↦
            rw (retry_guide_generation_job, v, valid)
              (idempotent-Keeps job_body job_of_body refuses begun
                (λ (d : Db). Evolves db.jobs d.jobs)
                (λ d d' (keys, e) h. subst (λ (x : Db). Evolves db.jobs x.jobs) (sym e) h)
                (retry_work refuses now later event_id command.meta.actor command.job_id
                  command.expected_job_revision)
                db (λ id. inl refl)
                (λ keys.
                  retry_work-Evolves refuses now later event_id command.meta.actor command.job_id
                    command.expected_job_revision (record db { keys = keys }) filed)
                command.meta (retry_path command.job_id)
                (digest (job_revision_payload command.expected_job_revision)) 202)
      ]
    ]

pub act-Evolves :
    (action : JobAction) (db : Db) → IsFiled db.jobs → Evolves db.jobs (act action db).jobs
unfolding act recover finish_failure finish_success transact
act-Evolves (JobAction.restarts refuses now later fresh) db filed =
    announced-Evolves (refuses Query.commit) db _ (recover_work-Evolves refuses now later fresh db)
act-Evolves (JobAction.claims refuses now later fresh before) db filed =
    settle-Evolves (refuses Query.commit) db _
      (claim_work-Evolves refuses now later fresh before db filed)
act-Evolves (JobAction.fails refuses now later fresh claimed context expired e) db filed =
    announced-Evolves (refuses Query.commit) db _ (
      fail_work-IsEvolving refuses now later fresh claimed context (generation_error_code expired e)
        (generation_error_code-valid expired e) db)
act-Evolves (JobAction.succeeds refuses now later fresh claimed context outputs) db filed =
    announced-Evolves (refuses Query.commit) db _
      (succeed_work-IsEvolving refuses now later fresh claimed context outputs db)
act-Evolves (JobAction.retries refuses now later event_id digest begun command) db filed =
    retry-Evolves refuses now later event_id digest begun command db filed

Evolves-IsSound : (db db' : Db) → Evolves db.jobs db'.jobs → IsSound db → IsSound db'
Evolves-IsSound db db' evolves sound id row h = elim (evolves id) [
  | inl same ↦ sound id row (sym same ∙ h)
  | inr (job, job', old, new, change) ↦
      let s : job' ≡ row = cc in
      let before = sound id job old in
      let allowed = Change-allowed job job' change before.1 in
      subst (λ (j : GuideGenerationJob). (j.id ≡ id) × (row_fits j ≡ true)) s
        (allowed.0 ∙ before.0, Change-fits job job' change before.1)
]

-- A row's next state: the same, or with the next revision and a status that the domain allows.
abbrev pub Allowed : GuideGenerationJob → GuideGenerationJob → Type 0
Allowed job job' =
    (job' ≡ job)
    ⊎ ((job'.revision ≡ job.revision + 1)
        × (job.attempt ≤ job'.attempt)
        × ((job_can_transition job.status job'.status job.attempt ≡ true)
            ⊎ ((job.status ≡ GuideGenerationJobStatus.running)
                × (job_can_recover job.attempt job'.status ≡ true))))

-- If every job has its key and columns that fit its status, a job that is there before a claim, the
-- end of an attempt, a start of the worker or a retry is there afterwards, as it was or with the
-- next revision, no fewer attempts and a status to which the rules for transitions and recoveries
-- let it go.
pub act-Allowed :
    (action : JobAction) (db : Db) (id : DomainId) (job : GuideGenerationJob)
    → IsSound db
    → db.jobs id ≡ some job
    → (job' : GuideGenerationJob) × ((act action db).jobs id ≡ some job') × Allowed job job'
act-Allowed action db id job sound h = elim (act-Evolves action db (IsSound-IsFiled db sound) id) [
  | inl same ↦ (job, same ∙ h, inl refl)
  | inr (old, job', was, new, change) ↦
      let s : old ≡ job = cc in
      let allowed = Change-allowed old job' change (sound id old was).1 in
      (
        job',
        new,
        subst (λ (j : GuideGenerationJob). Allowed j job') s
            (inr (allowed.1, allowed.2, allowed.3)),
      )
]

Allowed-le :
    (job job' : GuideGenerationJob)
    → Allowed job job'
    → (job.attempt ≤ job'.attempt) × (job.revision ≤ job'.revision)
Allowed-le job job' (inl same) = (
  let e = ap (λ (j : GuideGenerationJob). j.attempt) same in omega arith,
  let e = ap (λ (j : GuideGenerationJob). j.revision) same in omega arith,
)
Allowed-le job job' (inr (next, more, moves)) = (more, omega arith)

-- No job is lost, none has its attempts or its revision reduced, and none has more than three attempts.
abbrev pub Grows : Db → Db → Type 0
Grows db db' =
    (id : DomainId) (job : GuideGenerationJob)
    → db.jobs id ≡ some job
    → (job' : GuideGenerationJob) × (db'.jobs id ≡ some job')
      × (job.attempt ≤ job'.attempt)
      × (job'.attempt ≤ 3)
      × (job.revision ≤ job'.revision)

-- If every job has its key and columns that fit its status, this is so after any claims, ends of
-- attempts, also of workers that were replaced, starts of the worker and retries, whatever
-- statements are refused: no job is lost, none has its attempts or its revision reduced, and none
-- has more than three attempts.
pub act_all-IsSound :
    (actions : List JobAction) (db : Db)
    → IsSound db
    → IsSound (act_all actions db) × Grows db (act_all actions db)
unfolding act_all
act_all-IsSound [] db sound =
    (sound, λ id job h. (job, h, omega arith, row_fits-attempt job (sound id job h).1, omega arith))
act_all-IsSound (action ∷ actions) db sound =
    let next =
      Evolves-IsSound db (act action db) (act-Evolves action db (IsSound-IsFiled db sound)) sound in
    let rest = act_all-IsSound actions (act action db) next in
    (
      rest.0,
      λ id job h.
          let (job', new, allowed) = act-Allowed action db id job sound h in
          let (attempts, revisions) = Allowed-le job job' allowed in
          let (last, end, more, most, later) = rest.1 id job' new in
          (last, end, omega arith, most, omega arith),
    )

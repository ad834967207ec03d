-- ===== src/Service/Session/Ending.antt =====
-- The transactions of `EndWithoutGuide` (server/internal/service/support_sessions.go) and `End`
-- (end_support_session.go) as steps of the abstract machine.
use mite.Prelude.{
  ℕ, ◌≡◌, ◌∙◌, sym, ap, inl, inr, Option, none, some, List, [], ◌∷◌, arith, ok, Result-cases,
}
use mite.Text.{Str}
use mite.Domain.Errors.{Res}
use mite.Domain.Enums.{Role, SupportSessionEndReason, GuideGenerationJobStatus}
use mite.Domain.Event.{Event}
use mite.Domain.Value.{DomainId}
use mite.Domain.User.{Actor, authorize}
use mite.Domain.Support.{
  SupportSession, validate_expected_revision, validate_end_without_guide, validate_end_saved,
}
use mite.Domain.Support.Rules.{validate_end_without_guide_iff}
use mite.Domain.Idempotency.{IdempotencyScope, IdempotencyRecord}
use mite.Repository.{Db, Tx, lift, ◌>>=◌, ◌>>◌}
use mite.Repository.Sessions.{lock_request, lock_session, end_without_guide, end_saved_guide}
use mite.Service.Env.{Env}
use mite.Service.Session.Common.{session_pair, decode_session_replay}
use mite.Service.Session.Held.{begin_session_key, answered, checked}
use mite.Service.Session.End.{
  store_session, queue_batch, job_status_of, end_and_clean, end_checked, end_work,
  end_saved_checked, end_saved_work,
}
use mite.Service.Session.Mutate.{lock_request-cases, lock_session-cases}
use mite.Service.Session.Rows.{Turns, IsConsistent}
use mite.Service.Session.Finish.{IsAfterCall}
use mite.Service.Session.Frame.{
  SameRows, Steps, Steps-keeps, Steps-after, Steps-before, Steps-same, reject-Keeps,
  begin_session_key-Keeps,
}
use mite.Service.Session.Closing.{
  store_session-Keeps, queue_batch-Keeps, job_status_of-Keeps, clean_up, clean_up-Keeps,
  end_without_guide-Steps, end_saved_guide-Steps,
}

after_call :
    (s : SupportSession) (actor : Actor) (reason : SupportSessionEndReason)
    (job : Option GuideGenerationJobStatus)
    → validate_end_without_guide s actor reason job ≡ ok tt
    → IsAfterCall s
after_call s actor reason job h =
    ground (arith, (validate_end_without_guide_iff s actor reason job).0 h)

after_saved : (s : SupportSession) → validate_end_saved s ≡ ok tt → IsAfterCall s
unfolding validate_end_saved
after_saved s h = ground arith

module _ (env : Env) where
  end_and_clean-Steps :
      (s : SupportSession) (reason : SupportSessionEndReason) (scope : IdempotencyScope) (db : Db)
      → IsConsistent db.requests db.sessions
      → db.sessions s.id ≡ some s
      → IsAfterCall s
      → Steps Turns db (end_and_clean env s reason scope db)
  unfolding end_and_clean
  end_and_clean-Steps s reason scope db c held after =
      Steps-before Turns db (queue_batch env s.guide_material_batch_id db) _
        (queue_batch-Keeps env s.guide_material_batch_id db)
        λ _ d _ k. Steps-same Turns db d _ k (
          Steps-after Turns d (end_without_guide env.refuses s.id reason env.now d)
            (clean_up env s scope)
            (end_without_guide-Steps env s reason d (rw (k.0, k.1) c) (rw k.1 held) after)
            (clean_up-Keeps env s scope))

  end_checked-Steps :
      (actor : Actor) (expected : ℕ) (reason : SupportSessionEndReason) (scope : IdempotencyScope)
      (request_id : Str) (s : SupportSession) (db : Db)
      → IsConsistent db.requests db.sessions
      → db.sessions s.id ≡ some s
      → Steps Turns db (end_checked env actor expected reason scope request_id s db)
  unfolding end_checked
  end_checked-Steps actor expected reason scope request_id s db c held =
      elim (Result-cases (validate_expected_revision s.revision expected)) [
        | inl (e, p) ↦
            rw p (Steps-keeps Turns db _ (reject-Keeps env SupportSession scope e request_id db))
        | inr (_, p) ↦ rw p (
            Steps-before Turns db (job_status_of env s.guide_generation_job_id db) _
              (job_status_of-Keeps env s.guide_generation_job_id db)
              λ job d _ k. Steps-same Turns db d _ k (judged job d (rw (k.0, k.1) c) (rw k.1 held)))
      ]
    where
      judged :
          (job : Option GuideGenerationJobStatus) (d : Db)
          → IsConsistent d.requests d.sessions
          → d.sessions s.id ≡ some s
          → Steps Turns d (
              checked env scope request_id
                (validate_end_without_guide s actor reason job)
                (λ _. end_and_clean env s reason scope)
                d)
      judged job d c held = elim (Result-cases (validate_end_without_guide s actor reason job)) [
        | inl (e, p) ↦
            rw p (Steps-keeps Turns d _ (reject-Keeps env SupportSession scope e request_id d))
        | inr (_, p) ↦
            rw p (end_and_clean-Steps s reason scope d c held (after_call s actor reason job p))
      ]

  end_saved_checked-Steps :
      (id : DomainId) (expected : ℕ) (scope : IdempotencyScope) (request_id : Str)
      (s : SupportSession) (db : Db)
      → IsConsistent db.requests db.sessions
      → db.sessions s.id ≡ some s
      → s.id ≡ id
      → Steps Turns db (end_saved_checked env id expected scope request_id s db)
  unfolding end_saved_checked
  end_saved_checked-Steps id expected scope request_id s db c held same =
      elim (Result-cases (validate_expected_revision s.revision expected)) [
        | inl (e, p) ↦
            rw p (Steps-keeps Turns db _ (reject-Keeps env SupportSession scope e request_id db))
        | inr (_, p) ↦ elim (Result-cases (validate_end_saved s)) [
          | inl (e, q) ↦
              rw (p, q)
                (Steps-keeps Turns db _ (reject-Keeps env SupportSession scope e request_id db))
          | inr (_, q) ↦
              rw (p, q, sym same)
                (Steps-after Turns db (end_saved_guide env.refuses s.id env.now db)
                  (store_session env scope)
                  (end_saved_guide-Steps env s db c held (after_saved s q))
                  (store_session-Keeps env scope))
        ]
      ]

  -- The part that both transactions share: the locks, the actor and the key.
  locked-Steps :
      (actor : Actor) (roles : List Role) (session : SupportSession) (id : DomainId)
      (scope : IdempotencyScope) (hash : Str)
      (work : SupportSession → Tx (Res SupportSession × List Event)) (db : Db)
      → IsConsistent db.requests db.sessions
      → ((s : SupportSession) (d : Db)
          → IsConsistent d.requests d.sessions
          → d.sessions s.id ≡ some s
          → s.id ≡ id
          → Steps Turns d (work s d))
      → Steps Turns db (
          (lock_request env.refuses session.support_request_id >>= λ _.
          lock_session env.refuses id >>= λ locked.
          lift (authorize (session_pair locked) actor roles)
          >> (begin_session_key env scope hash
              >>= answered env (λ r. decode_session_replay r 200) (work locked)))
            db)
  locked-Steps actor roles session id scope hash work db c step =
      elim (lock_request-cases env session.support_request_id db) [
        | inl (e, p) ↦ rw p tt
        | inr (request, p, _) ↦ elim (lock_session-cases env id db) [
          | inl (e, q) ↦ rw (p, q) tt
          | inr (s, q, l) ↦ elim (Result-cases (authorize (session_pair s) actor roles)) [
            | inl (e, a) ↦ rw (p, q, a) tt
            | inr (_, a) ↦
                rw (p, q, a)
                  (Steps-before Turns db (begin_session_key env scope hash db) _
                    (begin_session_key-Keeps env scope hash db) (begun s l))
          ]
        ]
      ]
    where
      begun :
          (s : SupportSession)
          → db.sessions id ≡ some s
          → (o : Option IdempotencyRecord) (d : Db)
          → begin_session_key env scope hash db ≡ (ok o, d)
          → SameRows db d
          → Steps Turns db (answered env (λ r. decode_session_replay r 200) (work s) o d)
      begun s l (some r) d e k = inl k
      begun s l none d e k =
          Steps-same Turns db d _ k
            (step s d (rw (k.0, k.1) c) (rw k.1 (ap db.sessions (c.0 id s l).0 ∙ l)) (c.0 id s l).0)

  pub end_work-Steps :
      (actor : Actor) (session : SupportSession) (id : DomainId) (expected : ℕ)
      (reason : SupportSessionEndReason) (scope : IdempotencyScope) (hash request_id : Str)
      (db : Db)
      → IsConsistent db.requests db.sessions
      → Steps Turns db (end_work env actor session id expected reason scope hash request_id db)
  unfolding end_work
  end_work-Steps actor session id expected reason scope hash request_id db c =
      locked-Steps actor (Role.user ∷ Role.family ∷ []) session id scope hash
        (end_checked env actor expected reason scope request_id) db c
        (λ s d c held _. end_checked-Steps actor expected reason scope request_id s d c held)

  pub end_saved_work-Steps :
      (actor : Actor) (session : SupportSession) (id : DomainId) (expected : ℕ)
      (scope : IdempotencyScope) (hash request_id : Str) (db : Db)
      → IsConsistent db.requests db.sessions
      → Steps Turns db (end_saved_work env actor session id expected scope hash request_id db)
  unfolding end_saved_work
  end_saved_work-Steps actor session id expected scope hash request_id db c =
      locked-Steps actor (Role.family ∷ []) session id scope hash
        (end_saved_checked env id expected scope request_id) db c
        (end_saved_checked-Steps id expected scope request_id)

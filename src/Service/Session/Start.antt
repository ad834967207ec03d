-- ===== src/Service/Session/Start.antt =====
-- `Call` of server/internal/service/support_sessions.go as a step of the abstract machine.
use mite.Prelude.{
  ℕ, ◌≡◌, refl, ◌∙◌, ap, inl, inr, Option, none, some, [], ◌∷◌, arith, Bool-cases, Option-cases, ok,
  Result-cases,
}
use mite.Text.{Str}
use mite.Domain.Enums.{Role, SupportSessionStatus, SupportRequestStatus}
use mite.Domain.Event.{support_request_updated, support_session_created}
use mite.Domain.Value.{DomainId}
use mite.Domain.User.{Actor, authorize}
use mite.Domain.Support.{
  Time, SupportRequest, SupportSession, new_ringing_session, validate_expected_revision,
}
use mite.Domain.Idempotency.{IdempotencyScope, IdempotencyRecord}
use mite.Repository.{Db, Query}
use mite.Repository.Sessions.{create_session, attach_session, touch_request}
use mite.Service.Env.{Env}
use mite.Service.Session.Common.{SupportSessionPair, request_pair, decode_pair_replay}
use mite.Service.Session.Held.{begin_session_key, answered}
use mite.Service.Session.Pair.{store_pair}
use mite.Service.Session.Call.{start_call, call_checked, call_work}
use mite.Service.Session.Mutate.{lock_request-cases}
use mite.Service.Session.Rows.{Starts, IsConsistent, StaysOr}
use mite.Service.Session.Refine.{store_pair-Keeps}
use mite.Service.Session.Frame.{
  SameRows, Steps, Steps-keeps, Steps-after, Steps-before, Steps-same, reject-Keeps,
  begin_session_key-Keeps,
}

ringing-facts :
    (id : DomainId) (request : SupportRequest) (now : Time) (s : SupportSession)
    → new_ringing_session id request now ≡ ok s
    → (request.status ≡ SupportRequestStatus.pending)
      × (request.support_session_id ≡ none)
      × (s.support_request_id ≡ request.id)
      × (s.user_id ≡ request.user_id)
      × (s.family_id ≡ request.family_id)
unfolding new_ringing_session
ringing-facts id request now s h = ground arith

module _ (env : Env) where
  start_call-Steps :
      (id : DomainId) (request : SupportRequest) (session : SupportSession)
      (scope : IdempotencyScope) (db : Db)
      → new_ringing_session id request env.now ≡ ok session
      → db.requests request.id ≡ some request
      → Steps Starts db (start_call env request session scope db)
  unfolding start_call create_session attach_session
  start_call-Steps id request session scope db h r =
      elim (Bool-cases (env.refuses Query.create_session)) [
        | inl f ↦ rw f tt
        | inr f ↦ elim (Option-cases (db.sessions session.id)) [
          | inr (x, n) ↦ rw (f, n) tt
          | inl n ↦ elim (Bool-cases (env.refuses Query.attach_session)) [
            | inl g ↦ rw (f, n, g) tt
            | inr g ↦
                rw (f, n, g, r)
                  (stored _ _ (
                    let facts = ringing-facts id request env.now session h in
                    inr (
                      request,
                      record (touch_request env.now request) {
                        support_session_id = some session.id;
                      },
                      record session {
                        status = SupportSessionStatus.ringing;
                        guide_decision = none;
                        guide_material_batch_id = none;
                        guide_generation_job_id = none;
                        guide_draft_id = none;
                        guide_id = none;
                        consent = none;
                        consented_at = none;
                        started_at = none;
                        ended_at = none;
                        end_reason = none;
                        updated_at = session.created_at;
                        revision = 1;
                      },
                      r,
                      n,
                      facts.1,
                      refl,
                      refl,
                      refl,
                      refl,
                      refl,
                      refl,
                      (facts.2, refl, facts.3, facts.4, facts.0, inl refl),
                      refl,
                      refl,
                    )))
          ]
        ]
      ]
    where
      stored :
          (pair : SupportSessionPair) (db' : Db)
          → StaysOr Starts db.requests db.sessions db'.requests db'.sessions
          → Steps Starts db
              (store_pair env scope 201 support_request_updated support_session_created pair db')
      stored pair db' adv =
          Steps-after Starts db (ok pair, db')
            (store_pair env scope 201 support_request_updated support_session_created) adv
            (store_pair-Keeps env scope 201 _ _)

  call_checked-Steps :
      (session_id : DomainId) (expected : ℕ) (scope : IdempotencyScope) (request_id : Str)
      (locked : SupportRequest) (db : Db)
      → db.requests locked.id ≡ some locked
      → Steps Starts db (call_checked env session_id expected scope request_id locked db)
  unfolding call_checked
  call_checked-Steps session_id expected scope request_id locked db r =
      elim (Result-cases (validate_expected_revision locked.revision expected)) [
        | inl (e, p) ↦
            rw p
              (Steps-keeps Starts db _ (reject-Keeps env SupportSessionPair scope e request_id db))
        | inr (_, p) ↦ elim (Result-cases (new_ringing_session session_id locked env.now)) [
          | inl (e, q) ↦
              rw (p, q)
                (Steps-keeps Starts db _
                  (reject-Keeps env SupportSessionPair scope e request_id db))
          | inr (s, q) ↦ rw (p, q) (start_call-Steps session_id locked s scope db q r)
        ]
      ]

  pub call_work-Steps :
      (actor : Actor) (id session_id : DomainId) (expected : ℕ) (scope : IdempotencyScope)
      (hash request_id : Str) (db : Db)
      → IsConsistent db.requests db.sessions
      → Steps Starts db (call_work env actor id session_id expected scope hash request_id db)
  unfolding call_work
  call_work-Steps actor id session_id expected scope hash request_id db c =
      elim (lock_request-cases env id db) [
        | inl (e, p) ↦ rw p tt
        | inr (locked, p, r) ↦
            elim (Result-cases (authorize (request_pair locked) actor (Role.family ∷ []))) [
              | inl (e, a) ↦ rw (p, a) tt
              | inr (_, a) ↦
                  rw (p, a)
                    (Steps-before Starts db (begin_session_key env scope hash db) _
                      (begin_session_key-Keeps env scope hash db) (begun locked r))
            ]
      ]
    where
      begun :
          (locked : SupportRequest)
          → db.requests id ≡ some locked
          → (o : Option IdempotencyRecord) (db' : Db)
          → begin_session_key env scope hash db ≡ (ok o, db')
          → SameRows db db'
          → Steps Starts db (
              answered env
                (λ x. decode_pair_replay x 201)
                (call_checked env session_id expected scope request_id locked)
                o
                db')
      begun locked r (some x) db' e k = inl k
      begun locked r none db' e k = Steps-same Starts db db' _ k (
          call_checked-Steps session_id expected scope request_id locked db'
            (rw k.0 (ap db.requests (c.1 id locked r).0 ∙ r)))

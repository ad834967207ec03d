-- ===== src/Service/Session/Refine.antt =====
-- `Accept` and `Resolve` of server/internal/service/support_sessions.go make steps of the abstract
-- machine of the requests and sessions.
use mite.Prelude.{
  ℕ, ◌≡◌, refl, ◌∙◌, sym, ap, inl, inr, true, Option, none, some, List, [], ◌∷◌, Bool-cases, ok,
  err, Result-cases,
}
use mite.Text.{Str}
use mite.Json.{pair_body}
use mite.Domain.Errors.{Error, Res}
use mathlib.Core.Path.{subst}
use mite.Domain.Event.{Event, EventType, support_request_updated, support_session_updated}
use mite.Domain.User.{Actor, authorize}
use mite.Domain.Support.{SupportRequest, SupportSession, validate_expected_revision}
use mite.Domain.Idempotency.{IdempotencyScope, IdempotencyRecord}
use mite.Repository.{Db, Tx, lift, pure, ◌>>=◌}
use mite.Repository.Keys.{complete_key}
use mite.Service.Env.{Env}
use mite.Service.Snapshot.{request_snapshot, session_snapshot}
use mite.Service.Session.Common.{
  SupportSessionPair, session_pair, decode_pair_replay, pair_events, is_persistent_business_error,
}
use mite.Service.Session.Held.{begin_session_key, reject, answered}
use mite.Service.Session.Pair.{store_pair, change_checked, mutate_pair_work, after_change}
use mite.Service.Session.Change.{IsChange}
use mite.Service.Session.Mutate.{lock_request-cases, lock_session-cases}
use mite.Service.Session.Rows.{Turns, IsConsistent}
use mite.Service.Session.Frame.{
  SameRows, Keeps, Steps, Steps-keeps, Steps-after, Steps-before, Steps-same, bind-Keeps,
  complete_key-Keeps, reject-Keeps, begin_session_key-Keeps,
}

-- A change steps on the rows that it is given, if they stand in consistent tables.
abbrev pub IsStep : (SupportRequest → SupportSession → Tx SupportSessionPair) → Type 0
IsStep change =
    (request : SupportRequest) (session : SupportSession) (db : Db)
    → IsConsistent db.requests db.sessions
    → db.requests request.id ≡ some request
    → db.sessions session.id ≡ some session
    → Steps Turns db (change request session db)

module _ (env : Env) where
  pub store_pair-Keeps :
      (scope : IdempotencyScope) (status : ℕ) (p q : EventType) (pair : SupportSessionPair)
      → Keeps (store_pair env scope status p q pair)
  unfolding store_pair
  store_pair-Keeps scope status p q pair =
      bind-Keeps
        (complete_key env.refuses scope status
          (pair_body (request_snapshot pair.support_request)
            (session_snapshot pair.support_session))
          env.now)
        (λ _. lift (pair_events env p pair.support_request q pair.support_session) >>= λ events.
          pure (ok pair, events))
        (complete_key-Keeps env scope status _ env.now)
        λ _.
          bind-Keeps (lift (pair_events env p pair.support_request q pair.support_session))
            (λ events. pure (ok pair, events)) (λ db. (refl, refl)) λ events db. (refl, refl)

  module _ (change : SupportRequest → SupportSession → Tx SupportSessionPair)
      (clean : IsChange change) (step : IsStep change) where
    change_checked-Steps :
        (expected : ℕ) (scope : IdempotencyScope) (request_id : Str) (status : ℕ)
        (request : SupportRequest) (session : SupportSession) (db : Db)
        → IsConsistent db.requests db.sessions
        → db.requests request.id ≡ some request
        → db.sessions session.id ≡ some session
        → Steps Turns db
            (change_checked env expected scope request_id status change request session db)
    unfolding change_checked
    change_checked-Steps expected scope request_id status request session db c r s =
        elim (Result-cases (validate_expected_revision session.revision expected)) [
          | inl (e, p) ↦
              rw p
                (Steps-keeps Turns db _ (reject-Keeps env SupportSessionPair scope e request_id db))
          | inr (_, p) ↦ rw p (changed (change request session db) refl)
        ]
      where
        changed :
            (x : Res SupportSessionPair × Db)
            → change request session db ≡ x
            → Steps Turns db (after_change env scope request_id status x)
        changed (ok pair, db') q =
            Steps-after Turns db (ok pair, db')
              (store_pair env scope status support_request_updated support_session_updated)
              (subst (λ x. Steps Turns db x) q (step request session db c r s))
              (store_pair-Keeps scope status _ _)
        changed (err e, db') q = elim (Bool-cases (is_persistent_business_error e)) [
          | inr n ↦ rw n tt
          | inl n ↦ rw n (same e db' q n)
        ]
          where
            same :
                (e : Error) (db' : Db)
                → change request session db ≡ (err e, db')
                → is_persistent_business_error e ≡ true
                → Steps Turns {A = Res SupportSessionPair × List Event} db
                    (reject env scope e request_id db')
            same e db' q n =
                let back =
                  sym (ap (λ (x : Res SupportSessionPair × Db). x.1) q)
                  ∙ (clean request session db).1 e (ap (λ (x : Res SupportSessionPair × Db). x.0) q)
                      n in
                rw back (
                  Steps-keeps Turns db _
                    (reject-Keeps env SupportSessionPair scope e request_id db))

    pub mutate_pair_work-Steps :
        (actor : Actor) (session : SupportSession) (expected : ℕ) (scope : IdempotencyScope)
        (hash request_id : Str) (status : ℕ) (db : Db)
        → IsConsistent db.requests db.sessions
        → Steps Turns db
            (mutate_pair_work env actor session expected scope hash request_id status change db)
    unfolding mutate_pair_work
    mutate_pair_work-Steps actor session expected scope hash request_id status db c =
        elim (lock_request-cases env session.support_request_id db) [
          | inl (e, p) ↦ rw p tt
          | inr (request, p, r) ↦ elim (lock_session-cases env session.id db) [
            | inl (e, q) ↦ rw (p, q) tt
            | inr (locked, q, l) ↦
                elim (Result-cases (authorize (session_pair locked) actor (actor.role ∷ []))) [
                  | inl (e, a) ↦ rw (p, q, a) tt
                  | inr (_, a) ↦
                      rw (p, q, a)
                        (Steps-before Turns db (begin_session_key env scope hash db) _
                          (begin_session_key-Keeps env scope hash db) (begun request locked r l))
                ]
          ]
        ]
      where
        begun :
            (request : SupportRequest) (locked : SupportSession)
            → db.requests session.support_request_id ≡ some request
            → db.sessions session.id ≡ some locked
            → (o : Option IdempotencyRecord) (db' : Db)
            → begin_session_key env scope hash db ≡ (ok o, db')
            → SameRows db db'
            → Steps Turns db (
                answered env
                  (λ x. decode_pair_replay x status)
                  (change_checked env expected scope request_id status change request locked)
                  o
                  db')
        begun request locked r l (some x) db' e k = inl k
        begun request locked r l none db' e k = Steps-same Turns db db' _ k (
            change_checked-Steps expected scope request_id status request locked db'
              (rw (k.0, k.1) c) (rw k.0 (ap db.requests (row_id request r) ∙ r))
              (rw k.1 (ap db.sessions (c.0 session.id locked l).0 ∙ l)))
          where
            row_id :
                (x : SupportRequest)
                → db.requests session.support_request_id ≡ some x
                → x.id ≡ session.support_request_id
            row_id x h = (c.1 session.support_request_id x h).0

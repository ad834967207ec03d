-- ===== src/Service/Stored/Retry.antt =====
-- The answer that `idempotent` of server/internal/service/guides.go stores is the one that every later
-- request with the key gets.
use mathlib.Core.Path.{subst}
use mite.Prelude.{
  ℕ, ◌<◌, ◌≡◌, refl, ◌∙◌, ap, inl, inr, true, false, Bool-cases, Option, none, some, List, [],
  arith, write_self, leb, ok, err, Result-cases,
}
use mite.Text.{Str}
use mite.Json.{Body, is_empty, error_body}
use mite.Domain.Errors.{ErrorCode, Res, error_code_of}
use mite.Domain.Enums.{IdempotencyStatus}
use mite.Domain.Event.{Event}
use mite.Domain.Idempotency.{
  IdempotencyScope, IdempotencyRecord, eq_scope, scope_validate, record_validate, new_request_hash,
}
use mite.Repository.{Db, Tx, Query, go_on}
use mite.Repository.Keys.{get_key, lock_key}
use mite.Service.Env.{Env}
use mite.Service.Session.Replay.{IsHeld, Begins}
use mite.Service.Session.Answer.{IsAnswer, IsHeld-keys, complete_key-cases, from_db, evaluated}
use mite.Service.Stored.{
  Answer, replay_of, replayed, begin_answer, store_error, coded_error, store_answer, on_begun,
  answer_work, persistable, guide_status, translate_repository_error, stored_failure,
}
use mite.Service.Stored.Begin.{begin_answer-Begins}

-- A stored status of an error is that of an error.
failing : (code : ErrorCode) → leb 400 (guide_status code) ≡ true
unfolding guide_status
failing code = ground arith

module _ {A : Type 0} (encode : A → Body) (decode : Body → Res A) where
  -- A replay publishes nothing.
  replay_of-quiet :
      (status : Option ℕ) (body : Option Body) (result : Res A) (events : List Event)
      → replay_of decode status body ≡ ok (result, events)
      → events ≡ []
  replay_of-quiet none body result events h = cc
  replay_of-quiet (some status) none result events h = cc
  replay_of-quiet (some status) (some body) result events h = elim (Bool-cases (leb 400 status)) [
    | inl b ↦ elim (Result-cases (stored_failure body)) [
      | inl (e, f) ↦ let k = rw (b, f) at h in cc
      | inr (e, f) ↦ let k = rw (b, f) at h in cc
    ]
    | inr b ↦ elim (Result-cases (decode body)) [
      | inl (e, f) ↦ let k = rw (b, f) at h in cc
      | inr (a, f) ↦ let k = rw (b, f) at h in cc
    ]
  ]

  module _ (full : (a : A) → is_empty (encode a) ≡ false)
      (reads : (a : A) → decode (encode a) ≡ ok a) (scope : IdempotencyScope) (hash : Str)
      (valid : scope_validate scope ≡ ok tt) (hashed : new_request_hash hash ≡ ok hash) where
    -- The record under the key answers with this result.
    abbrev IsStored : Db → Res A → Type 0
    IsStored db result = IsAnswer (replayed decode) db scope hash (ok (result, []))

    abbrev Stores : Res (Answer A) × Db → Type 0
    Stores (err e, db) = Unit
    Stores (ok (result, events), db) = IsStored db result

    module _ (env : Env) where
      store_error-Stores :
          (request_id : Str) (code : ErrorCode) (db : Db)
          → IsHeld db scope hash
          → Stores (store_error encode decode env.refuses env.now scope request_id code db)
      unfolding store_error replayed stored_failure
      store_error-Stores request_id code db held = elim (Bool-cases (persistable code)) [
        | inr p ↦ rw p tt
        | inl p ↦
            elim (complete_key-cases env scope hash (guide_status code) (error_body code request_id)
              db refl held) [
                | inl q ↦ rw (p, q) tt
                | inr (row, q, done, same, v, s, b) ↦
                    rw (p, q)
                      (row, write_self db.keys scope _, done, same, v, rw (s, b, failing code) refl)
              ]
      ]

      coded_error-Stores :
          (request_id : Str) (o : Option ErrorCode) (db : Db)
          → IsHeld db scope hash
          → Stores (coded_error encode decode env.refuses env.now scope request_id o db)
      coded_error-Stores request_id none db held = tt
      coded_error-Stores request_id (some code) db held = store_error-Stores request_id code db held

      store_answer-Stores :
          (request_id : Str) (success : ℕ) (x : Res (A × List Event) × Db)
          → success < 400
          → IsHeld x.1 scope hash
          → Stores (store_answer encode decode env.refuses env.now scope request_id success x)
      unfolding store_answer replayed
      store_answer-Stores request_id success (err e, db) small held =
          coded_error-Stores request_id (error_code_of (translate_repository_error e)) db held
      store_answer-Stores request_id success (ok (a, events), db) small held =
          let read : leb 400 success ≡ false = ground arith in
          elim (complete_key-cases env scope hash success (encode a) db (full a) held) [
            | inl q ↦ rw q tt
            | inr (row, q, done, same, v, s, b) ↦
                rw q (row, write_self db.keys scope _, done, same, v, rw (s, b, read, reads a) refl)
          ]

      answer_work-Stores :
          (request_id : Str) (success : ℕ) (work : Tx (A × List Event)) (db : Db)
          → success < 400
          → ((d : Db) → (work d).1.keys ≡ d.keys)
          → Stores
              (answer_work encode decode env.refuses env.now scope request_id hash success work db)
      unfolding answer_work replayed
      answer_work-Stores request_id success work db small apart =
          begun (begin_answer encode decode env.refuses env.now scope hash db)
            (begin_answer-Begins encode decode env scope hash valid hashed db)
        where
          again :
              (r : IdempotencyRecord) (d : Db) (x : Res (Answer A))
              → replayed decode r ≡ x
              → IsAnswer (replayed decode) d scope hash (replayed decode r)
              → Stores (x, d)
          again r d (err e) p a = tt
          again r d (ok (result, events)) p a =
              subst (IsAnswer (replayed decode) d scope hash)
                (p
                  ∙ ap {A = List Event} {B = Res (Answer A)} (λ l. ok (result, l))
                      (replay_of-quiet r.response_status r.response_body result events p))
                a

          begun :
              (x : Res (Option IdempotencyRecord) × Db)
              → Begins db scope hash x
              → Stores (
                  go_on x
                    (on_begun encode decode env.refuses env.now scope request_id success work))
          begun (err e, d) b = tt
          begun (ok (some r), d) b =
              again r d (replayed decode r) refl
                (r, ap (λ (y : Db). y.keys scope) b.0 ∙ b.1, b.2, b.3, b.4, refl)
          begun (ok none, d) b =
              store_answer-Stores request_id success (work d) small
                (IsHeld-keys d (work d).1 scope hash (apart d) b.1)

      begin_answer-stored :
          (db : Db) (row : IdempotencyRecord)
          → ((q : Query) → env.refuses q ≡ false)
          → db.keys scope ≡ some row
          → row.status ≡ IdempotencyStatus.completed
          → row.request_hash ≡ hash
          → record_validate row ≡ ok tt
          → begin_answer encode decode env.refuses env.now scope hash db ≡ (ok (some row), db)
      unfolding begin_answer get_key lock_key
      begin_answer-stored db row up at done same v =
          rw
            (
              up Query.try_lock_key,
              up Query.key_is_locked,
              up Query.lock_key,
              at,
              from_db row db v,
              evaluated row hash env.now hashed done same v,
            )
            refl

    -- A request that `idempotent` has answered, with a result or with a stored error, is answered the
    -- same way whenever it is sent again while the record stands: at any time, whatever its work and
    -- its request id are then, and without doing the work, a write or an event, if no statement is
    -- refused then. The scope and the hash are valid, a result is read back as it was written, the
    -- success status is below 400, and the first work leaves the keys alone.
    pub answer_work-retry :
        (env later : Env) (request_id second_id : Str) (success second_success : ℕ)
        (work again : Tx (A × List Event)) (db db1 db2 : Db) (result : Res A) (events : List Event)
        → success < 400
        → ((d : Db) → (work d).1.keys ≡ d.keys)
        → answer_work encode decode env.refuses env.now scope request_id hash success work db
          ≡ (ok (result, events), db1)
        → db2.keys scope ≡ db1.keys scope
        → ((q : Query) → later.refuses q ≡ false)
        → answer_work encode decode later.refuses later.now scope second_id hash second_success
            again db2
          ≡ (ok (result, []), db2)
    unfolding answer_work
    answer_work-retry env later request_id second_id success second_success work again db db1 db2
          result events small apart first kept up =
        resent (subst Stores first (answer_work-Stores env request_id success work db small apart))
      where
        resent :
            IsStored db1 result
            → answer_work encode decode later.refuses later.now scope second_id hash second_success
                again db2
              ≡ (ok (result, []), db2)
        resent (row, at, done, same, v, read) =
            rw (begin_answer-stored later db2 row up (kept ∙ at) done same v, read) refl

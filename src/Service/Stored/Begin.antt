-- ===== src/Service/Stored/Begin.antt =====
-- How `idempotent` of server/internal/service/guides.go begins: an error, a record to replay, or the
-- key is held.
use mite.Prelude.{
  ◌≡◌, refl, inl, inr, none, some, arith, Bool-cases, Option-cases, write_self, ok, Result-cases,
}
use mite.Text.{Str, eq_str}
use mite.Json.{Body}
use mite.Domain.Errors.{Res}
use mite.Domain.Enums.{eq_idempotency_status}
use mite.Domain.Idempotency.{
  IdempotencyScope, IdempotencyRecord, eq_scope, scope_validate, record_validate, new_request_hash,
}
use mite.Repository.{Db, Query}
use mite.Repository.Keys.{
  get_key, create_key, take_over_key, fresh_row, taken_row, can_take, put_key,
}
use mite.Service.Env.{Env}
use mite.Service.Idempotency.{start, take_over, evaluate_idempotency, new_in_progress_record}
use mite.Service.Session.Replay.{Begins, record_from_db-cases, lock_key-cases, evaluate-cases}
use mite.Service.Stored.{on_decision, begin_answer}

module _ {A : Type 0} (encode : A → Body) (decode : Body → Res A) (env : Env)
    (scope : IdempotencyScope) (hash : Str) (valid : scope_validate scope ≡ ok tt)
    (hashed : new_request_hash hash ≡ ok hash) where
  take_over-Begins :
      (db : Db) (r : IdempotencyRecord)
      → db.keys scope ≡ some r
      → r.request_hash ≡ hash
      → scope_validate r.scope ≡ ok tt
      → new_request_hash r.request_hash ≡ ok r.request_hash
      → Begins db scope hash
          (on_decision encode decode env.refuses env.now scope hash (take_over r) db)
  unfolding take_over_key
  take_over-Begins db r e same v h = elim (Bool-cases (env.refuses Query.take_over_key)) [
    | inl f ↦ rw f refl
    | inr f ↦ elim (Bool-cases (can_take r env.now)) [
      | inr held ↦ rw (f, e, held) refl
      | inl over ↦
          elim (record_from_db-cases (taken_row r r.resource_id env.now)
            (put_key scope (taken_row r r.resource_id env.now) db)) [
              | inl (x, p) ↦ rw (f, e, over, p) refl
              | inr (p, _) ↦
                  rw (f, e, over, p)
                    (
                      refl,
                      (
                        taken_row r r.resource_id env.now,
                        write_self db.keys scope _,
                        ground arith,
                        same,
                        v,
                        h,
                      ),
                    )
            ]
    ]
  ]

  start-Begins :
      (db : Db)
      → db.keys scope ≡ none
      → Begins db scope hash (on_decision encode decode env.refuses env.now scope hash start db)
  unfolding create_key new_in_progress_record
  start-Begins db e =
      let row = fresh_row scope hash env.now in
      elim (Result-cases (record_validate row)) [
        | inl (x, p) ↦ rw p refl
        | inr (_, p) ↦ elim (Bool-cases (env.refuses Query.create_key)) [
          | inl f ↦ rw (p, f) refl
          | inr f ↦ elim (record_from_db-cases row (put_key scope row db)) [
            | inl (x, q) ↦ rw (p, f, e, q) refl
            | inr (q, _) ↦
                rw (p, f, e, q) (refl, (row, write_self db.keys scope _, refl, refl, valid, hashed))
          ]
        ]
      ]

  pub begin_answer-Begins :
      (db : Db)
      → Begins db scope hash (begin_answer encode decode env.refuses env.now scope hash db)
  unfolding begin_answer get_key evaluate_idempotency
  begin_answer-Begins db = elim (Bool-cases (env.refuses Query.try_lock_key)) [
    | inl f ↦ rw f refl
    | inr f ↦ elim (Bool-cases (env.refuses Query.key_is_locked)) [
      | inl g ↦ rw (f, g) refl
      | inr g ↦ elim (Option-cases (db.keys scope)) [
        | inl e ↦ elim (Bool-cases (env.refuses Query.lock_key)) [
          | inl l ↦ rw (f, g, l) refl
          | inr l ↦ rw (f, g, l, e, hashed) (start-Begins db e)
        ]
        | inr (r, e) ↦ elim (lock_key-cases env scope db r e) [
          | inl (x, p) ↦ rw (f, g, p) refl
          | inr (p, v) ↦ elim (evaluate-cases r hash env.now v) [
            | inl (x, q) ↦ rw (f, g, p, q) refl
            | inr (inl (q, c, same)) ↦ rw (f, g, p, q) (refl, e, c, same, v)
            | inr (inr (q, same, w, h)) ↦ rw (f, g, p, q) (take_over-Begins db r e same w h)
          ]
        ]
      ]
    ]
  ]

-- ===== src/Service/Session/Replay.antt =====
-- What a transaction does to `idempotency_records`: the key is held while the work runs, and its
-- answer is given again to the same request (server/internal/service/support_sessions.go).
use mite.Prelude.{
  ◌≡◌, refl, ◌⊎◌, inl, inr, Option, none, some, arith, Bool-cases, Option-cases, write_self, ok,
  err, Result-cases,
}
use mite.Text.{Str, str_eq_iff, eq_str}
use mite.Domain.Errors.{Error, Res, failure}
use mite.Domain.Enums.{IdempotencyStatus, eq_idempotency_status}
use mite.Domain.Support.{Time}
use mite.Domain.Idempotency.{
  IdempotencyScope, IdempotencyRecord, eq_scope, scope_validate, record_validate, new_request_hash,
  new_idempotency_key,
}
use mite.Repository.{Db, Query}
use mite.Repository.Keys.{
  begin_key, lock_key, take_over_key, fresh_row, taken_row, can_take, put_key, record_from_db,
}
use mite.Service.Env.{Env}
use mite.Service.Idempotency.{replay, take_over, evaluate_idempotency}
use mite.Service.Session.Held.{on_evaluation, resume_key, begin_session_key}

-- Two states of the database that differ in `idempotency_records` only.
abbrev pub KeysOnly : Db → Db → Type 0
KeysOnly db db' = db' ≡ record db { keys = db'.keys }

-- The record under a scope is in progress, for this hash, and its scope and hash are valid.
abbrev pub IsHeld : Db → IdempotencyScope → Str → Type 0
IsHeld db scope hash =
    (row : IdempotencyRecord) × (db.keys scope ≡ some row)
    × (row.status ≡ IdempotencyStatus.in_progress)
    × (row.request_hash ≡ hash)
    × (scope_validate row.scope ≡ ok tt)
    × (new_request_hash row.request_hash ≡ ok row.request_hash)

-- How beginning a key ends: an error, a record to replay, or the key held.
abbrev pub Begins : Db → IdempotencyScope → Str → Res (Option IdempotencyRecord) × Db → Type 0
Begins db scope hash (err e, db') = KeysOnly db db'
Begins db scope hash (ok (some r), db') =
    (db' ≡ db)
    × (db.keys scope ≡ some r)
    × (r.status ≡ IdempotencyStatus.completed)
    × (r.request_hash ≡ hash)
    × (record_validate r ≡ ok tt)
Begins db scope hash (ok none, db') = KeysOnly db db' × IsHeld db' scope hash

pub record_from_db-cases :
    (r : IdempotencyRecord) (db : Db)
    → ((e : Error) × (record_from_db r db ≡ (err e, db)))
      ⊎ ((record_from_db r db ≡ (ok r, db)) × (record_validate r ≡ ok tt))
unfolding record_from_db
record_from_db-cases r db = elim (Result-cases (new_request_hash r.request_hash)) [
  | inl (e, p) ↦ inl (e, rw p)
  | inr (h, p) ↦ elim (Result-cases (new_idempotency_key r.scope.key)) [
    | inl (e, q) ↦ inl (e, rw (p, q))
    | inr (k, q) ↦ elim (Result-cases (record_validate r)) [
      | inl (e, v) ↦ inl (e, rw (p, q, v))
      | inr (_, v) ↦ inr (rw (p, q, v), v)
    ]
  ]
]

pub lock_key-cases :
    (env : Env) (scope : IdempotencyScope) (db : Db) (r : IdempotencyRecord)
    → db.keys scope ≡ some r
    → ((e : Error) × (lock_key env.refuses scope db ≡ (err e, db)))
      ⊎ ((lock_key env.refuses scope db ≡ (ok (some r), db)) × (record_validate r ≡ ok tt))
unfolding lock_key
lock_key-cases env scope db r e = elim (Bool-cases (env.refuses Query.lock_key)) [
  | inl f ↦ inl (failure, rw f)
  | inr f ↦ elim (record_from_db-cases r db) [
    | inl (x, p) ↦ inl (x, rw (f, e, p))
    | inr (p, v) ↦ inr (rw (f, e, p), v)
  ]
]

-- `evaluate_idempotency` on a record: a replay is of a completed record, a take-over of one that is
-- not, and both are of this record and for its hash.
pub evaluate-cases :
    (r : IdempotencyRecord) (hash : Str) (now : Time)
    → record_validate r ≡ ok tt
    → ((e : Error) × (evaluate_idempotency (some r) hash now ≡ err e))
      ⊎ ((evaluate_idempotency (some r) hash now ≡ ok (replay r))
          × (r.status ≡ IdempotencyStatus.completed)
          × (r.request_hash ≡ hash))
      ⊎ ((evaluate_idempotency (some r) hash now ≡ ok (take_over r))
          × (r.request_hash ≡ hash)
          × (scope_validate r.scope ≡ ok tt)
          × (new_request_hash r.request_hash ≡ ok r.request_hash))
unfolding evaluate_idempotency record_validate new_request_hash
evaluate-cases r hash now v = elim (Result-cases (evaluate_idempotency (some r) hash now)) [
  | inl (e, p) ↦ inl (e, p)
  | inr (d, p) ↦ inr (ground (arith, str_eq_iff r.request_hash hash))
]

-- A take-over leaves the key held, or ends in an error and changes the keys at most.
take_over-Begins :
    (env : Env) (scope : IdempotencyScope) (hash : Str) (db : Db) (r : IdempotencyRecord)
    → db.keys scope ≡ some r
    → r.request_hash ≡ hash
    → scope_validate r.scope ≡ ok tt
    → new_request_hash r.request_hash ≡ ok r.request_hash
    → Begins db scope hash (on_evaluation env scope (take_over r) db)
unfolding on_evaluation take_over_key
take_over-Begins env scope hash db r e same v h =
    elim (Bool-cases (env.refuses Query.take_over_key)) [
      | inl f ↦ rw f refl
      | inr f ↦ elim (Bool-cases (can_take r env.now)) [
        | inr held ↦ rw (f, e, held) refl
        | inl over ↦
            elim (record_from_db-cases (taken_row r none env.now)
              (put_key scope (taken_row r none env.now) db)) [
                | inl (x, p) ↦ rw (f, e, over, p) refl
                | inr (p, _) ↦
                    rw (f, e, over, p)
                      (
                        refl,
                        (
                          taken_row r none env.now,
                          write_self db.keys scope _,
                          ground arith,
                          same,
                          v,
                          h,
                        ),
                      )
              ]
      ]
    ]

resume_key-Begins :
    (env : Env) (scope : IdempotencyScope) (hash : Str) (db : Db) (r : IdempotencyRecord)
    → db.keys scope ≡ some r
    → Begins db scope hash (resume_key env scope hash db)
unfolding resume_key on_evaluation
resume_key-Begins env scope hash db r e = elim (lock_key-cases env scope db r e) [
  | inl (x, p) ↦ rw p refl
  | inr (p, v) ↦ elim (evaluate-cases r hash env.now v) [
    | inl (x, q) ↦ rw (p, q) refl
    | inr (inl (q, c, same)) ↦ rw (p, q) (refl, e, c, same, v)
    | inr (inr (q, same, w, h)) ↦ rw (p, q) (take_over-Begins env scope hash db r e same w h)
  ]
]

pub begin_session_key-Begins :
    (env : Env) (scope : IdempotencyScope) (hash : Str) (db : Db)
    → scope_validate scope ≡ ok tt
    → new_request_hash hash ≡ ok hash
    → Begins db scope hash (begin_session_key env scope hash db)
unfolding begin_session_key begin_key
begin_session_key-Begins env scope hash db v h = elim (Bool-cases (env.refuses Query.begin_key)) [
  | inl f ↦ rw f refl
  | inr f ↦ elim (Option-cases (db.keys scope)) [
    | inl e ↦
        rw (f, e)
          (refl, (fresh_row scope hash env.now, write_self db.keys scope _, refl, refl, v, h))
    | inr (r, e) ↦ rw (f, e) (resume_key-Begins env scope hash db r e)
  ]
]

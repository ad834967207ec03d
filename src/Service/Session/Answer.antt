-- ===== src/Service/Session/Answer.antt =====
-- The answer that a transaction stores under its key (server/internal/service/support_sessions.go):
-- it is the one that the caller gets, and the one that every later request with the key gets.
use mite.Prelude.{
  ℕ, ◌<◌, ◌≡◌, refl, ◌∙◌, sym, ap, ◌⊎◌, inl, inr, false, Option, none, some, List, [], arith,
  Bool-cases, Option-cases, write, write_self, ok, err,
}
use mite.Text.{Str, str_eq_iff}
use mite.Json.{Body, is_empty, error_body, pair_body}
use mite.Domain.Errors.{Error, ErrorCode, Res, operation, failure, error_code_of}
use mite.Domain.Enums.{IdempotencyStatus, eq_idempotency_status}
use mite.Domain.Support.{Time}
use mite.Domain.Idempotency.{
  IdempotencyScope, IdempotencyRecord, eq_scope, scope_validate, record_validate, new_request_hash,
}
use mite.Domain.Event.{Event}
use mite.Repository.{Db, Tx, Query, go_on}
use mite.Repository.Keys.{begin_key, lock_key, complete_key, completed_row, put_key, record_from_db}
use mite.Service.Env.{Env}
use mite.Service.Idempotency.{replay, evaluate_idempotency}
use mite.Service.Snapshot.{
  request_value-snapshot, session_value-snapshot, request_snapshot, session_snapshot,
}
use mite.Service.Session.Common.{
  SupportSessionPair, decode_pair_replay, decode_stored_error, status_for_code,
}
use mite.Service.Session.Held.{
  resume_key, on_evaluation, begin_session_key, persist_mutation_error, reject, answered,
}
use mite.Service.Session.Replay.{IsHeld, KeysOnly, Begins, begin_session_key-Begins}

-- The record under a scope is completed, valid, of this hash, and decodes to a result.
abbrev pub IsAnswer :
    {A : Type 0} → (IdempotencyRecord → Res A) → Db → IdempotencyScope → Str → Res A → Type 0
IsAnswer decode db scope hash result =
    (row : IdempotencyRecord) × (db.keys scope ≡ some row)
    × (row.status ≡ IdempotencyStatus.completed)
    × (row.request_hash ≡ hash)
    × (record_validate row ≡ ok tt)
    × (decode row ≡ result)

-- Completing a held key stores the body, or fails and changes nothing.
pub complete_key-cases :
    (env : Env) (scope : IdempotencyScope) (hash : Str) (status : ℕ) (body : Body) (db : Db)
    → is_empty body ≡ false
    → IsHeld db scope hash
    → (complete_key env.refuses scope status body env.now db ≡ (err failure, db))
      ⊎ ((row : IdempotencyRecord) × (complete_key env.refuses scope status body env.now db
            ≡ (ok tt, put_key scope row db))
          × (row.status ≡ IdempotencyStatus.completed)
          × (row.request_hash ≡ hash)
          × (record_validate row ≡ ok tt)
          × (row.response_status ≡ some status)
          × (row.response_body ≡ some body))
unfolding complete_key record_validate
complete_key-cases env scope hash status body db full (row, at, pending, same, v, h) =
    elim (Bool-cases (env.refuses Query.complete_key)) [
      | inl f ↦ inl (rw f)
      | inr f ↦ inr (
        completed_row status body env.now row,
        rw (f, at, pending),
        refl,
        same,
        ground arith,
        refl,
        refl,
      )
    ]

pub from_db :
    (row : IdempotencyRecord) (db : Db)
    → record_validate row ≡ ok tt
    → record_from_db row db ≡ (ok row, db)
unfolding record_from_db record_validate scope_validate
from_db row db v = ground arith

pub evaluated :
    (row : IdempotencyRecord) (hash : Str) (now : Time)
    → new_request_hash hash ≡ ok hash
    → row.status ≡ IdempotencyStatus.completed
    → row.request_hash ≡ hash
    → record_validate row ≡ ok tt
    → evaluate_idempotency (some row) hash now ≡ ok (replay row)
unfolding evaluate_idempotency
evaluated row hash now h done same v = ground (arith, str_eq_iff row.request_hash hash)

-- A record in the table answers the next request with its key: it is returned, and nothing changes.
pub begin_answered :
    (env : Env) (scope : IdempotencyScope) (hash : Str) (db : Db) (row : IdempotencyRecord)
    → ((q : Query) → env.refuses q ≡ false)
    → new_request_hash hash ≡ ok hash
    → db.keys scope ≡ some row
    → row.status ≡ IdempotencyStatus.completed
    → row.request_hash ≡ hash
    → record_validate row ≡ ok tt
    → begin_session_key env scope hash db ≡ (ok (some row), db)
unfolding begin_session_key begin_key resume_key lock_key on_evaluation
begin_answered env scope hash db row up h at done same v =
    rw
      (
        up Query.begin_key,
        at,
        up Query.lock_key,
        at,
        from_db row db v,
        evaluated row hash env.now h done same v,
      )
      refl

-- How a transaction's work ends at a held key: an error rolls everything back; a stored error
-- changes the keys only and publishes nothing; a result is the answer of a record that the tables
-- held before the work, which then changes nothing and publishes nothing, or it satisfies `Q`.
abbrev pub Ends :
    {A : Type 0}
    → (IdempotencyRecord → Res A)
    → IdempotencyScope
    → Str
    → (A → List Event → Db → Type 0)
    → Db
    → Res (Res A × List Event) × Db
    → Type 0
Ends decode scope hash Q db (err e, db') = Unit
Ends decode scope hash Q db (ok (err e, events), db') =
    IsAnswer decode db' scope hash (err e) × KeysOnly db db' × (events ≡ [])
Ends decode scope hash Q db (ok (ok a, events), db') =
    IsAnswer decode db' scope hash (ok a)
    × ((IsAnswer decode db scope hash (ok a) × (db' ≡ db) × (events ≡ [])) ⊎ Q a events db')

-- A stored error is read back as the error that the caller got.
abbrev pub ReadsErrors : {A : Type 0} → (IdempotencyRecord → Res A) → Type 0
ReadsErrors decode =
    (row : IdempotencyRecord) (c : ErrorCode) (request_id : Str)
    → row.response_status ≡ some (status_for_code c)
    → row.response_body ≡ some (error_body c request_id)
    → decode row ≡ err (operation c request_id)

pub decode_pair_replay-ReadsErrors :
    (status : ℕ) → status < 400 → ReadsErrors (λ r. decode_pair_replay r status)
unfolding decode_pair_replay decode_stored_error status_for_code
decode_pair_replay-ReadsErrors status small row c id p q = ground arith

pub decode_pair :
    (row : IdempotencyRecord) (status : ℕ) (pair : SupportSessionPair)
    → row.response_status ≡ some status
    → row.response_body
      ≡ some (
          pair_body (request_snapshot pair.support_request) (session_snapshot pair.support_session))
    → decode_pair_replay row status ≡ ok pair
unfolding decode_pair_replay
decode_pair row status pair p q = ground (
  arith,
  request_value-snapshot pair.support_request,
  session_value-snapshot pair.support_session,
)

pub KeysOnly-put :
    (db0 db : Db) (scope : IdempotencyScope) (row : IdempotencyRecord)
    → KeysOnly db0 db
    → KeysOnly db0 (put_key scope row db)
KeysOnly-put db0 db scope row k =
    ap {A = Db} {B = Db} (λ d. record d { keys = write db.keys scope (some row) }) k

pub KeysOnly-of_eq : (db db' : Db) → db' ≡ db → KeysOnly db db'
KeysOnly-of_eq db db' e =
    e
    ∙ ap (λ (t : IdempotencyScope → Option IdempotencyRecord). record db { keys = t })
        (ap (λ (d : Db). d.keys) (sym e))

-- A key is held as long as the keys do not change.
pub IsHeld-keys :
    (db db' : Db) (scope : IdempotencyScope) (hash : Str)
    → db'.keys ≡ db.keys
    → IsHeld db scope hash
    → IsHeld db' scope hash
IsHeld-keys db db' scope hash k (row, at, pending, same, v, h) = (
  row,
  ap (λ (t : IdempotencyScope → Option IdempotencyRecord). t scope) k ∙ at,
  pending,
  same,
  v,
  h,
)

module _ {A : Type 0} (decode : IdempotencyRecord → Res A) (reads : ReadsErrors decode) (env : Env)
    (scope : IdempotencyScope) (hash : Str) where
  pub reject-Ends :
      (Q : A → List Event → Db → Type 0) (e : Error) (request_id : Str) (db0 db : Db)
      → KeysOnly db0 db
      → IsHeld db scope hash
      → Ends decode scope hash Q db0 (reject env scope e request_id db)
  unfolding reject persist_mutation_error
  reject-Ends Q e request_id db0 db k held = elim (Option-cases (error_code_of e)) [
    | inl n ↦ rw n tt
    | inr (c, n) ↦
        elim (complete_key-cases env scope hash (status_for_code c) (error_body c request_id) db
          refl held) [
            | inl p ↦ rw (n, p) tt
            | inr (row, p, done, same, v, s, b) ↦
                rw (n, p)
                  (
                    (row, write_self db.keys scope _, done, same, v, reads row c request_id s b),
                    KeysOnly-put db0 db scope row k,
                    refl,
                  )
          ]
  ]

  -- What `answered` makes of a begun key: the stored answer, or the work at the held key.
  pub answered-Ends :
      (Q : A → List Event → Db → Type 0) (work : Tx (Res A × List Event)) (db : Db)
      → scope_validate scope ≡ ok tt
      → new_request_hash hash ≡ ok hash
      → ((db' : Db)
          → KeysOnly db db'
          → IsHeld db' scope hash
          → Ends decode scope hash Q db (work db'))
      → Ends decode scope hash Q db
          (go_on (begin_session_key env scope hash db) (answered env decode work))
  answered-Ends Q work db v h go =
      begun (begin_session_key env scope hash db) (begin_session_key-Begins env scope hash db v h)
    where
      replayed :
          (r : IdempotencyRecord) (res : Res A) (db' : Db)
          → IsAnswer decode db' scope hash res
          → IsAnswer decode db scope hash res
          → db' ≡ db
          → Ends decode scope hash Q db (ok (res, []), db')
      replayed r (err e) db' a before k = (a, KeysOnly-of_eq db db' k, refl)
      replayed r (ok x) db' a before k = (a, inl (before, k, refl))

      begun :
          (x : Res (Option IdempotencyRecord) × Db)
          → Begins db scope hash x
          → Ends decode scope hash Q db (go_on x (answered env decode work))
      begun (err e, db') b = tt
      begun (ok none, db') b = go db' b.0 b.1
      begun (ok (some r), db') b =
          replayed r (decode r) db'
            (r, ap (λ (d : Db). d.keys scope) b.0 ∙ b.1, b.2, b.3, b.4, refl)
            (r, b.1, b.2, b.3, b.4, refl) b.0

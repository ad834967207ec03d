-- ===== src/Service/Session/Frame.antt =====
-- Which parts of a transaction of server/internal/service/support_sessions.go leave the tables of
-- requests and sessions alone, and how a transaction steps if one part does not.
use mite.Prelude.{
  ℕ, ◌≡◌, refl, ◌∙◌, sym, inl, Bool, true, false, Option, none, some, List, arith, ok, err,
}
use mite.Text.{Str}
use mite.Json.{Body, error_body}
use mite.Domain.Errors.{Error, ErrorCode, Res, error_code_of, operation}
use mite.Domain.Event.{Event}
use mite.Domain.Value.{DomainId}
use mite.Domain.Support.{Time}
use mite.Domain.Idempotency.{IdempotencyScope, IdempotencyRecord}
use mite.Repository.{Db, Tx, Query, go_on, guarded, lift, transact, settle, ◌>>=◌}
use mite.Repository.Keys.{
  begin_key, lock_key, take_over_key, complete_key, record_from_db, begin_at, lock_at, take_at,
  take_if, complete_at,
}
use mite.Service.Env.{Env}
use mite.Service.Idempotency.{Evaluation, start, take_over, replay, evaluate_idempotency}
use mite.Service.Session.Common.{conclude, report, status_for_code}
use mite.Service.Session.Held.{
  after_take_over, on_evaluation, on_row, resume_key, on_created, begin_session_key, persist_code,
  persist_mutation_error, reject,
}
use mite.Service.Session.Rows.{Requests, Sessions, StaysOr}

abbrev pub SameRows : Db → Db → Type 0
SameRows db db' = (db'.requests ≡ db.requests) × (db'.sessions ≡ db.sessions)

-- However it ends, the tables of requests and sessions are as before.
abbrev pub Keeps {ℓ} : {A : Type ℓ} → Tx A → Type 0
Keeps m = (db : Db) → SameRows db (m db).1

module _ {ℓ κ} {A : Type ℓ} {B : Type κ} where
  go_on-SameRows :
      (db : Db) (x : Res A × Db) (f : A → Tx B)
      → SameRows db x.1
      → ((a : A) → Keeps (f a))
      → SameRows db (go_on x f).1
  go_on-SameRows db (ok a, db') f e k = ((k a db').0 ∙ e.0, (k a db').1 ∙ e.1)
  go_on-SameRows db (err e, db') f same k = same

  pub bind-Keeps : (m : Tx A) (f : A → Tx B) → Keeps m → ((a : A) → Keeps (f a)) → Keeps (m >>= f)
  bind-Keeps m f k l db = go_on-SameRows db (m db) f (k db) l

pub guarded-Keeps {ℓ} : {A : Type ℓ} (b : Bool) (m : Tx A) → Keeps m → Keeps (guarded b m)
guarded-Keeps true m k db = (refl, refl)
guarded-Keeps false m k db = k db

pub lift-Keeps {ℓ} : {A : Type ℓ} (r : Res A) → Keeps (lift r)
lift-Keeps r db = (refl, refl)

record_from_db-Keeps : (r : IdempotencyRecord) → Keeps (record_from_db r)
unfolding record_from_db
record_from_db-Keeps r db = ground arith

lock_at-Keeps : (o : Option IdempotencyRecord) → Keeps (lock_at o)
lock_at-Keeps none = λ db. (refl, refl)
lock_at-Keeps (some r) =
    bind-Keeps (record_from_db r) _ (record_from_db-Keeps r) λ a. lift-Keeps (ok (some a))

begin_at-Keeps :
    (o : Option IdempotencyRecord) (scope : IdempotencyScope) (hash : Str) (now : Time)
    → Keeps (begin_at o scope hash now)
begin_at-Keeps none scope hash now db = (refl, refl)
begin_at-Keeps (some r) scope hash now db = (refl, refl)

take_if-Keeps :
    (b : Bool) (row : IdempotencyRecord) (scope : IdempotencyScope) → Keeps (take_if b row scope)
take_if-Keeps false row scope db = (refl, refl)
take_if-Keeps true row scope db = lock_at-Keeps (some row) _

take_at-Keeps :
    (o : Option IdempotencyRecord) (scope : IdempotencyScope) (id : Option DomainId) (now : Time)
    → Keeps (take_at o scope id now)
take_at-Keeps none scope id now = λ db. (refl, refl)
take_at-Keeps (some r) scope id now = take_if-Keeps _ _ scope

complete_at-Keeps :
    (o : Option IdempotencyRecord) (scope : IdempotencyScope) (status : ℕ) (body : Body)
    (now : Time)
    → Keeps (complete_at o scope status body now)
complete_at-Keeps none scope status body now db = (refl, refl)
complete_at-Keeps (some r) scope status body now db = ground arith

module _ (env : Env) where
  pub complete_key-Keeps :
      (scope : IdempotencyScope) (status : ℕ) (body : Body) (now : Time)
      → Keeps (complete_key env.refuses scope status body now)
  unfolding complete_key
  complete_key-Keeps scope status body now db =
      guarded-Keeps (env.refuses Query.complete_key)
        (complete_at (db.keys scope) scope status body now)
        (complete_at-Keeps (db.keys scope) scope status body now) db

  on_evaluation-Keeps :
      (scope : IdempotencyScope) (e : Evaluation) → Keeps (on_evaluation env scope e)
  unfolding on_evaluation take_over_key
  on_evaluation-Keeps scope start = λ db. (refl, refl)
  on_evaluation-Keeps scope (replay r) = λ db. (refl, refl)
  on_evaluation-Keeps scope (take_over r) =
      bind-Keeps (take_over_key env.refuses scope none env.now) (after_take_over env)
        (λ db. guarded-Keeps _ _ (take_at-Keeps (db.keys scope) scope none env.now) db)
        (λ o. elim o as (λ x. Keeps (after_take_over env x)) [
          | none ↦ (λ db. (refl, refl))
          | some r ↦ (λ db. (refl, refl))
        ])

  on_row-Keeps :
      (scope : IdempotencyScope) (hash : Str) (o : Option IdempotencyRecord)
      → Keeps (on_row env scope hash o)
  on_row-Keeps scope hash none = λ db. (refl, refl)
  on_row-Keeps scope hash (some r) =
      bind-Keeps (lift (evaluate_idempotency (some r) hash env.now)) (on_evaluation env scope)
        (λ db. (refl, refl)) (on_evaluation-Keeps scope)

  resume_key-Keeps : (scope : IdempotencyScope) (hash : Str) → Keeps (resume_key env scope hash)
  unfolding resume_key lock_key
  resume_key-Keeps scope hash =
      bind-Keeps (lock_key env.refuses scope) (on_row env scope hash)
        (λ db. guarded-Keeps _ _ (lock_at-Keeps (db.keys scope)) db) (on_row-Keeps scope hash)

  on_created-Keeps :
      (scope : IdempotencyScope) (hash : Str) (b : Bool) → Keeps (on_created env scope hash b)
  on_created-Keeps scope hash true = λ db. (refl, refl)
  on_created-Keeps scope hash false = resume_key-Keeps scope hash

  pub begin_session_key-Keeps :
      (scope : IdempotencyScope) (hash : Str) → Keeps (begin_session_key env scope hash)
  unfolding begin_session_key begin_key
  begin_session_key-Keeps scope hash =
      bind-Keeps (begin_key env.refuses scope hash env.now) (on_created env scope hash)
        (λ db. guarded-Keeps _ _ (begin_at-Keeps (db.keys scope) scope hash env.now) db)
        (on_created-Keeps scope hash)

  persist_code-Keeps :
      (o : Option ErrorCode) (scope : IdempotencyScope) (e : Error) (request_id : Str)
      → Keeps (persist_code env o scope e request_id)
  persist_code-Keeps none scope e request_id = λ db. (refl, refl)
  persist_code-Keeps (some c) scope e request_id =
      bind-Keeps
        (complete_key env.refuses scope (status_for_code c) (error_body c request_id) env.now) _
        (complete_key-Keeps _ _ _ _) λ _. lift-Keeps (ok (operation c request_id))

  pub reject-Keeps :
      (A : Type 0) (scope : IdempotencyScope) (e : Error) (request_id : Str)
      → Keeps {A = Res A × List Event} (reject env scope e request_id)
  unfolding reject persist_mutation_error
  reject-Keeps A scope e request_id db =
      bind-Keeps (persist_code env (error_code_of e) scope e request_id) _
        (persist_code-Keeps (error_code_of e) scope e request_id) (λ w d. (refl, refl)) db

-- What a part of a transaction that returns has made of the tables, for a relation of their states
-- before and after a change.
module _ (R : Requests → Sessions → Requests → Sessions → Type 0) where
  abbrev pub Steps {ℓ} : {A : Type ℓ} → Db → Res A × Db → Type 0
  Steps db (err e, db') = Unit
  Steps db (ok a, db') = StaysOr R db.requests db.sessions db'.requests db'.sessions

  pub Steps-keeps {ℓ} : {A : Type ℓ} (db : Db) (x : Res A × Db) → SameRows db x.1 → Steps db x
  Steps-keeps db (err e, db') k = tt
  Steps-keeps db (ok a, db') k = inl k

  pub Steps-after {ℓ κ} :
      {A : Type ℓ} {B : Type κ} (db : Db) (x : Res A × Db) (f : A → Tx B)
      → Steps db x
      → ((a : A) → Keeps (f a))
      → Steps db (go_on x f)
  Steps-after db (err e, db') f s k = tt
  Steps-after {B = B} db (ok a, db') f s k = then (f a db') (k a db')
    where
      then : (y : Res B × Db) → SameRows db' y.1 → Steps db y
      then (err e, d) l = tt
      then (ok b, d) l = rw (l.0, l.1) s

  pub Steps-before {ℓ κ} :
      {A : Type ℓ} {B : Type κ} (db : Db) (x : Res A × Db) (f : A → Tx B)
      → SameRows db x.1
      → ((a : A) (db' : Db) → x ≡ (ok a, db') → SameRows db db' → Steps db (f a db'))
      → Steps db (go_on x f)
  Steps-before db (err e, db') f k s = tt
  Steps-before db (ok a, db') f k s = s a db' refl k

  -- A whole use case: what its transaction made, or nothing.
  pub conclude-StaysOr :
      {A : Type 0} (env : Env) (work : Tx (Res A × List Event)) (db : Db)
      → Steps db (work db)
      → StaysOr R db.requests db.sessions
          (conclude env work db).1.requests
          (conclude env work db).1.sessions
  unfolding conclude transact
  conclude-StaysOr {A = A} env work db s = settled (env.refuses Query.commit) (work db) s
    where
      settled :
          (b : Bool) (x : Res (Res A × List Event) × Db)
          → Steps db x
          → StaysOr R db.requests db.sessions
              (report (settle b db x)).1.requests
              (report (settle b db x)).1.sessions
      settled b (err e, db') s = inl (refl, refl)
      settled true (ok a, db') s = inl (refl, refl)
      settled false (ok (err e, events), db') s = s
      settled false (ok (ok a, events), db') s = s

  -- From a state whose tables are those of another.
  pub Steps-same {ℓ} :
      {A : Type ℓ} (db db' : Db) (x : Res A × Db) → SameRows db db' → Steps db' x → Steps db x
  Steps-same db db' (err e, d) k s = tt
  Steps-same db db' (ok a, d) k s = rw (sym k.0, sym k.1) s

-- ===== src/Repository/Keys/Only.antt =====
-- The statements of Repository/Keys.antt write no table but `idempotency_records`.
use mite.Prelude.{
  ℕ, ◌≡◌, refl, ◌∙◌, ap, Bool, true, false, Option, none, some, ok, err, fail_if, arith,
}
use mite.Text.{Str}
use mite.Json.{Body}
use mite.Domain.Errors.{Res, domain, idempotency_request_in_progress}
use mite.Domain.Value.{DomainId}
use mite.Domain.Support.{Time}
use mite.Domain.Idempotency.{IdempotencyScope, IdempotencyRecord}
use mite.Repository.{Db, Tx, Query, go_on, guarded, lift, ◌>>=◌}
use mite.Repository.Keys.{
  record_from_db, begin_at, lock_at, take_at, take_if, complete_at, complete_if, begin_key,
  lock_key, take_over_key, complete_key, get_key, create_key, create_at, can_take, taken_row,
  put_key,
}
use mite.Repository.Leaves.{Leaves, Leaves-lift}

abbrev pub Keys : Type 0
Keys = IdempotencyScope → Option IdempotencyRecord

-- The state is as before, but for the records.
abbrev pub OnlyKeys : Db → Db → Type 0
OnlyKeys db db' = (keys : Keys) × (db' ≡ record db { keys = keys })

abbrev pub KeysOnly {ℓ} : {A : Type ℓ} → Tx A → Type 0
KeysOnly m = (db : Db) → OnlyKeys db (m db).1

pub OnlyKeys-refl : (db : Db) → OnlyKeys db db
OnlyKeys-refl db = (db.keys, refl)

pub OnlyKeys-trans : (a b c : Db) → OnlyKeys a b → OnlyKeys b c → OnlyKeys a c
OnlyKeys-trans a b c (k, e) (l, f) = (l, f ∙ ap (λ (x : Db). record x { keys = l }) e)

module _ {ℓ κ} {A : Type ℓ} {B : Type κ} where
  pub after-OnlyKeys :
      (db : Db) (x : Res A × Db) (k : A → Tx B)
      → OnlyKeys db x.1
      → ((a : A) → KeysOnly (k a))
      → OnlyKeys db (go_on x k).1
  after-OnlyKeys db (err e, d) k h l = h
  after-OnlyKeys db (ok a, d) k h l = OnlyKeys-trans db d (k a d).1 h (l a d)

  pub bind-KeysOnly :
      (m : Tx A) (k : A → Tx B) → KeysOnly m → ((a : A) → KeysOnly (k a)) → KeysOnly (m >>= k)
  bind-KeysOnly m k h l db = after-OnlyKeys db (m db) k (h db) l

  -- What follows such a statement starts from the same tables.
  pub Leaves-keys :
      (Q : B → Db → Type 0) (m : Tx A) (k : A → Tx B) (db : Db)
      → KeysOnly m
      → ((a : A) (keys : Keys) → Leaves Q (k a (record db { keys = keys })))
      → Leaves Q (go_on (m db) k)
  Leaves-keys Q m k db h step = from (m db) (h db)
    where
      from : (x : Res A × Db) → OnlyKeys db x.1 → Leaves Q (go_on x k)
      from (err e, d) o = Leaves-lift Q (err e) k d λ a p. cc
      from (ok a, d) (keys, e) = rw e (step a keys)

pub guarded-KeysOnly {ℓ} :
    {A : Type ℓ} (b : Bool) (m : Tx A) (db : Db)
    → OnlyKeys db (m db).1
    → OnlyKeys db (guarded b m db).1
guarded-KeysOnly true m db h = OnlyKeys-refl db
guarded-KeysOnly false m db h = h

pub record_from_db-same : (r : IdempotencyRecord) (db : Db) → (record_from_db r db).1 ≡ db
unfolding record_from_db
record_from_db-same r db = ground arith

lock_at-OnlyKeys : (o : Option IdempotencyRecord) → KeysOnly (lock_at o)
lock_at-OnlyKeys none db = OnlyKeys-refl db
lock_at-OnlyKeys (some r) db =
    after-OnlyKeys db (record_from_db r db) _ (db.keys, record_from_db-same r db)
      λ a d. OnlyKeys-refl d

begin_at-OnlyKeys :
    (o : Option IdempotencyRecord) (scope : IdempotencyScope) (hash : Str) (now : Time)
    → KeysOnly (begin_at o scope hash now)
begin_at-OnlyKeys none scope hash now db = (_, refl)
begin_at-OnlyKeys (some r) scope hash now db = OnlyKeys-refl db

take_if-OnlyKeys :
    (b : Bool) (row : IdempotencyRecord) (scope : IdempotencyScope) → KeysOnly (take_if b row scope)
take_if-OnlyKeys false row scope db = OnlyKeys-refl db
take_if-OnlyKeys true row scope db =
    let next : Db = put_key scope row db in
    OnlyKeys-trans db next (take_if true row scope db).1 (next.keys, refl)
      (lock_at-OnlyKeys (some row) next)

take_at-OnlyKeys :
    (o : Option IdempotencyRecord) (scope : IdempotencyScope) (id : Option DomainId) (now : Time)
    → KeysOnly (take_at o scope id now)
take_at-OnlyKeys none scope id now db = OnlyKeys-refl db
take_at-OnlyKeys (some r) scope id now db =
    take_if-OnlyKeys (can_take r now) (taken_row r id now) scope db

complete_if-OnlyKeys :
    (b : Bool) (row : IdempotencyRecord) (scope : IdempotencyScope)
    → KeysOnly (complete_if b row scope)
complete_if-OnlyKeys false row scope db = OnlyKeys-refl db
complete_if-OnlyKeys true row scope db = (_, refl)

complete_at-OnlyKeys :
    (o : Option IdempotencyRecord) (scope : IdempotencyScope) (status : ℕ) (body : Body)
    (now : Time)
    → KeysOnly (complete_at o scope status body now)
complete_at-OnlyKeys none scope status body now db = OnlyKeys-refl db
complete_at-OnlyKeys (some r) scope status body now db = complete_if-OnlyKeys _ _ scope db

module _ (refuses : Query → Bool) (scope : IdempotencyScope) where
  pub begin_key-OnlyKeys : (hash : Str) (now : Time) → KeysOnly (begin_key refuses scope hash now)
  unfolding begin_key
  begin_key-OnlyKeys hash now db =
      guarded-KeysOnly (refuses Query.begin_key) (begin_at (db.keys scope) scope hash now) db
        (begin_at-OnlyKeys (db.keys scope) scope hash now db)

  pub lock_key-OnlyKeys : KeysOnly (lock_key refuses scope)
  unfolding lock_key
  lock_key-OnlyKeys db =
      guarded-KeysOnly (refuses Query.lock_key) (lock_at (db.keys scope)) db
        (lock_at-OnlyKeys (db.keys scope) db)

  pub take_over_key-OnlyKeys :
      (id : Option DomainId) (now : Time) → KeysOnly (take_over_key refuses scope id now)
  unfolding take_over_key
  take_over_key-OnlyKeys id now db =
      guarded-KeysOnly (refuses Query.take_over_key) (take_at (db.keys scope) scope id now) db
        (take_at-OnlyKeys (db.keys scope) scope id now db)

  pub complete_key-OnlyKeys :
      (status : ℕ) (body : Body) (now : Time)
      → KeysOnly (complete_key refuses scope status body now)
  unfolding complete_key
  complete_key-OnlyKeys status body now db =
      guarded-KeysOnly (refuses Query.complete_key)
        (complete_at (db.keys scope) scope status body now) db
        (complete_at-OnlyKeys (db.keys scope) scope status body now db)

  pub get_key-OnlyKeys : KeysOnly (get_key refuses scope)
  unfolding get_key
  get_key-OnlyKeys db =
      after-OnlyKeys db _ (λ _. lock_key refuses scope)
        (guarded-KeysOnly (refuses Query.try_lock_key)
          (lift (fail_if (refuses Query.key_is_locked) (domain idempotency_request_in_progress))) db
          (OnlyKeys-refl db))
        λ _. lock_key-OnlyKeys

create_at-OnlyKeys :
    (o : Option IdempotencyRecord) (r : IdempotencyRecord) → KeysOnly (create_at o r)
create_at-OnlyKeys (some old) r db = OnlyKeys-refl db
create_at-OnlyKeys none r db =
    let next : Db = put_key r.scope r db in
    OnlyKeys-trans db next (create_at none r db).1 (next.keys, refl)
      (after-OnlyKeys next (record_from_db r next) _ (next.keys, record_from_db-same r next)
        λ a d. OnlyKeys-refl d)

pub create_key-OnlyKeys :
    (refuses : Query → Bool) (r : IdempotencyRecord) → KeysOnly (create_key refuses r)
unfolding create_key
create_key-OnlyKeys refuses r db =
    guarded-KeysOnly (refuses Query.create_key) (create_at (db.keys r.scope) r) db
      (create_at-OnlyKeys (db.keys r.scope) r db)

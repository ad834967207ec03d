-- ===== src/Service/Session/Mutate.antt =====
-- `mutatePair` of server/internal/service/support_sessions.go as a whole: what its transaction
-- leaves behind, and that a request sent again gets the answer of the first.
use mathlib.Core.Path.{subst}
use mite.Prelude.{
  ℕ, ◌<◌, ◌≡◌, refl, ◌∙◌, ◌⊎◌, inl, inr, false, some, List, [], ◌∷◌, Bool-cases, Option-cases, ok,
  err, Result-cases,
}
use mite.Text.{Str}
use mite.Domain.Errors.{Error, Res, domain, failure, not_found}
use mite.Domain.Value.{DomainId}
use mite.Domain.Support.{SupportRequest, SupportSession}
use mite.Domain.User.{Actor, authorize}
use mite.Domain.Idempotency.{IdempotencyScope, IdempotencyRecord, scope_validate, new_request_hash}
use mite.Domain.Event.{Event}
use mite.Repository.{Db, Tx, Query}
use mite.Repository.Sessions.{lock_request, lock_session}
use mite.Service.Env.{Env}
use mite.Service.Session.Common.{SupportSessionPair, session_pair, decode_pair_replay}
use mite.Service.Session.Pair.{mutate_pair_work}
use mite.Service.Session.Answer.{
  Ends, IsAnswer, answered-Ends, begin_answered, decode_pair_replay-ReadsErrors,
}
use mite.Service.Session.Change.{Changed, IsChange, change_checked-Ends}

pub lock_request-cases :
    (env : Env) (id : DomainId) (db : Db)
    → ((e : Error) × (lock_request env.refuses id db ≡ (err e, db)))
      ⊎ ((r : SupportRequest) × (lock_request env.refuses id db ≡ (ok r, db))
          × (db.requests id ≡ some r))
unfolding lock_request
lock_request-cases env id db = elim (Bool-cases (env.refuses Query.lock_request)) [
  | inl f ↦ inl (failure, rw f)
  | inr f ↦ elim (Option-cases (db.requests id)) [
    | inl n ↦ inl (domain not_found, rw (f, n))
    | inr (r, n) ↦ inr (r, rw (f, n), n)
  ]
]

pub lock_session-cases :
    (env : Env) (id : DomainId) (db : Db)
    → ((e : Error) × (lock_session env.refuses id db ≡ (err e, db)))
      ⊎ ((s : SupportSession) × (lock_session env.refuses id db ≡ (ok s, db))
          × (db.sessions id ≡ some s))
unfolding lock_session
lock_session-cases env id db = elim (Bool-cases (env.refuses Query.lock_session)) [
  | inl f ↦ inl (failure, rw f)
  | inr f ↦ elim (Option-cases (db.sessions id)) [
    | inl n ↦ inl (domain not_found, rw (f, n))
    | inr (s, n) ↦ inr (s, rw (f, n), n)
  ]
]

-- What a change applies to: the rows that the transaction locked, for an actor who may change them.
abbrev pub Mutated :
    Env
    → Actor
    → SupportSession
    → ℕ
    → (SupportRequest → SupportSession → Tx SupportSessionPair)
    → Db
    → SupportSessionPair
    → List Event
    → Db
    → Type 0
Mutated env actor session expected change db pair events db' =
    (request : SupportRequest) × (locked : SupportSession) × (db.requests session.support_request_id
      ≡ some request)
    × (db.sessions session.id ≡ some locked)
    × (authorize (session_pair locked) actor (actor.role ∷ []) ≡ ok tt)
    × (locked.revision ≡ expected)
    × Changed env change request locked db pair events db'

Ends-map :
    {A : Type 0} (decode : IdempotencyRecord → Res A) (scope : IdempotencyScope) (hash : Str)
    (P Q : A → List Event → Db → Type 0) (db : Db)
    → ((a : A) (events : List Event) (db' : Db) → P a events db' → Q a events db')
    → (x : Res (Res A × List Event) × Db) → Ends decode scope hash P db x
    → Ends decode scope hash Q db x
Ends-map decode scope hash P Q db f (err e, db') h = tt
Ends-map decode scope hash P Q db f (ok (err e, events), db') h = h
Ends-map decode scope hash P Q db f (ok (ok a, events), db') (h, inl k) = (h, inl k)
Ends-map decode scope hash P Q db f (ok (ok a, events), db') (h, inr q) =
    (h, inr (f a events db' q))

module _ (env : Env) (scope : IdempotencyScope) (hash request_id : Str) (status : ℕ)
    (small : status < 400) (change : SupportRequest → SupportSession → Tx SupportSessionPair) where
  -- For a valid scope and hash, a success status below 400, and any change that leaves the keys
  -- alone and gives each stored error before its first write: where the transaction commits, a
  -- stored error changes nothing but the keys and publishes nothing, and it is the answer under the
  -- key from then on; so is a result, which is the answer of a record that the tables held before,
  -- with nothing changed and nothing published, or that of the change, applied to the locked rows at
  -- the expected revision for an actor who may.
  pub mutate_pair_work-Ends :
      IsChange change
      → (actor : Actor) (session : SupportSession) (expected : ℕ) (db : Db)
      → scope_validate scope ≡ ok tt
      → new_request_hash hash ≡ ok hash
      → Ends
          (λ r. decode_pair_replay r status)
          scope
          hash
          (Mutated env actor session expected change db)
          db
          (mutate_pair_work env actor session expected scope hash request_id status change db)
  unfolding mutate_pair_work
  mutate_pair_work-Ends clean actor session expected db v h =
      elim (lock_request-cases env session.support_request_id db) [
        | inl (e, p) ↦ rw p tt
        | inr (request, p, r) ↦ elim (lock_session-cases env session.id db) [
          | inl (e, q) ↦ rw (p, q) tt
          | inr (locked, q, l) ↦
              elim (Result-cases (authorize (session_pair locked) actor (actor.role ∷ []))) [
                | inl (e, a) ↦ rw (p, q, a) tt
                | inr (_, a) ↦
                    rw (p, q, a)
                      (answered-Ends (λ x. decode_pair_replay x status)
                        (decode_pair_replay-ReadsErrors status small) env scope hash _ _ db v h
                        (λ held k w.
                          Ends-map (λ x. decode_pair_replay x status) scope hash _ _ db
                            (λ pair events db' c. (request, locked, r, l, a, c.1, c.0)) _
                            (change_checked-Ends env scope hash request_id status small change clean
                              expected request locked db held k w)))
              ]
        ]
      ]

-- A request with a valid scope and hash that a transaction has answered, with a result or with a
-- stored error, is answered the same way whenever it is sent again while the record stands: at any
-- time, whatever revision, change or request id it brings, and without any write or event, if no
-- statement is refused then, the rows are there, and the actor may still see the session. The
-- success status is below 400, and the first change leaves the keys alone and gives each stored
-- error before its first write.
pub mutate_pair_work-retry :
    (env later : Env) (scope : IdempotencyScope) (hash request_id : Str) (status : ℕ)
    (small : status < 400) (change again : SupportRequest → SupportSession → Tx SupportSessionPair)
    → IsChange change
    → (actor : Actor) (session : SupportSession) (expected : ℕ) (db db1 db2 : Db)
      (result : Res SupportSessionPair) (events : List Event)
    → scope_validate scope ≡ ok tt
    → new_request_hash hash ≡ ok hash
    → mutate_pair_work env actor session expected scope hash request_id status change db
      ≡ (ok (result, events), db1)
    → db2.keys scope ≡ db1.keys scope
    → ((q : Query) → later.refuses q ≡ false)
    → (request : SupportRequest) (locked : SupportSession)
    → db2.requests session.support_request_id ≡ some request
    → db2.sessions session.id ≡ some locked
    → authorize (session_pair locked) actor (actor.role ∷ []) ≡ ok tt
    → (second_id : Str) (second_expected : ℕ)
    → mutate_pair_work later actor session second_expected scope hash second_id status again db2
      ≡ (ok (result, []), db2)
unfolding mutate_pair_work lock_request lock_session
mutate_pair_work-retry env later scope hash request_id status small change again clean actor session
      expected db db1 db2 result events v h first kept up request locked r l a second_id
      second_expected =
    resent (
      answer result (
        subst
          (λ x.
            Ends (λ r. decode_pair_replay r status) scope hash
              (Mutated env actor session expected change db) db x)
          first
          (mutate_pair_work-Ends env scope hash request_id status small change clean actor session
            expected db v h)))
  where
    answer :
        (res : Res SupportSessionPair)
        → Ends
            (λ r. decode_pair_replay r status)
            scope
            hash
            (Mutated env actor session expected change db)
            db
            (ok (res, events), db1)
        → IsAnswer (λ r. decode_pair_replay r status) db1 scope hash res
    answer (err e) x = x.0
    answer (ok p) x = x.0

    resent :
        IsAnswer (λ r. decode_pair_replay r status) db1 scope hash result
        → mutate_pair_work later actor session second_expected scope hash second_id status again db2
          ≡ (ok (result, []), db2)
    resent (row, at, done, same, w, dec) =
        rw
          (
            up Query.lock_request,
            r,
            up Query.lock_session,
            l,
            a,
            begin_answered later scope hash db2 row up h (kept ∙ at) done same w,
            dec,
          )
          refl

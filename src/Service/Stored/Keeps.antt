-- ===== src/Service/Stored/Keeps.antt =====
-- What a use case inside `idempotent` (server/internal/service/guides.go) leaves behind.
use mathlib.Core.Path.{subst}
use mite.Prelude.{
  inl, inr, ℕ, ◌≡◌, refl, sym, Bool, true, false, Bool-cases, Option, none, some, List, ok, err,
  Result-cases,
}
use mite.Text.{Str}
use mite.Json.{Body, error_body}
use mite.Domain.Errors.{ErrorCode, Res}
use mite.Domain.Event.{Event}
use mite.Domain.Support.{Time}
use mite.Domain.Idempotency.{IdempotencyScope, IdempotencyRecord, new_idempotency_key}
use mite.Repository.{Db, Tx, Query, go_on, lift, pure, settle, transact, ◌>>=◌}
use mite.Repository.Keys.{get_key, create_key, take_over_key}
use mite.Repository.Keys.Only.{
  Keys, OnlyKeys, KeysOnly, OnlyKeys-refl, after-OnlyKeys, bind-KeysOnly, get_key-OnlyKeys,
  create_key-OnlyKeys, take_over_key-OnlyKeys, complete_key-OnlyKeys,
}
use mite.Service.Idempotency.{Evaluation, evaluate_idempotency, new_in_progress_record}
use mite.Service.Session.Common.{idempotency_scope}
use mite.Service.Stored.{
  CommandMeta, Answer, conclude, replayed, taken, on_decision, begin_answer, store_error,
  coded_error, store_answer, on_begun, answer_work, idempotent, guide_status, persistable,
}

module _ {A : Type 0} (encode : A → Body) (decode : Body → Res A) (refuses : Query → Bool)
    (now : Time) where
  module _ (scope : IdempotencyScope) where
    taken-KeysOnly :
        (o : Option IdempotencyRecord) → KeysOnly (taken encode decode refuses now scope o)
    taken-KeysOnly none db = OnlyKeys-refl db
    taken-KeysOnly (some r) db = OnlyKeys-refl db

    on_decision-KeysOnly :
        (hash : Str) (e : Evaluation)
        → KeysOnly (on_decision encode decode refuses now scope hash e)
    on_decision-KeysOnly hash (Evaluation.replay r) = OnlyKeys-refl
    on_decision-KeysOnly hash Evaluation.start =
        bind-KeysOnly (lift (new_in_progress_record scope hash none now))
          (λ r. create_key refuses r >>= λ _. pure none) OnlyKeys-refl
          λ r.
            bind-KeysOnly (create_key refuses r) (λ _. pure none) (create_key-OnlyKeys refuses r)
              λ _. OnlyKeys-refl
    on_decision-KeysOnly hash (Evaluation.take_over r) =
        bind-KeysOnly (take_over_key refuses scope r.resource_id now)
          (taken encode decode refuses now scope)
          (take_over_key-OnlyKeys refuses scope r.resource_id now) taken-KeysOnly

    begin_answer-KeysOnly :
        (hash : Str) → KeysOnly (begin_answer encode decode refuses now scope hash)
    unfolding begin_answer
    begin_answer-KeysOnly hash =
        bind-KeysOnly (get_key refuses scope) _ (get_key-OnlyKeys refuses scope) λ row.
          bind-KeysOnly (lift (evaluate_idempotency row hash now))
            (on_decision encode decode refuses now scope hash) OnlyKeys-refl
            (on_decision-KeysOnly hash)

    store_error-KeysOnly :
        (request_id : Str) (code : ErrorCode)
        → KeysOnly (store_error encode decode refuses now scope request_id code)
    unfolding store_error
    store_error-KeysOnly request_id code db = elim (Bool-cases (persistable code)) [
      | inl p ↦ rw p (
          after-OnlyKeys db _ _
            (complete_key-OnlyKeys refuses scope (guide_status code) (error_body code request_id)
              now db)
            λ _ d. OnlyKeys-refl d)
      | inr p ↦ rw p (OnlyKeys-refl db)
    ]

    coded_error-KeysOnly :
        (request_id : Str) (o : Option ErrorCode)
        → KeysOnly (coded_error encode decode refuses now scope request_id o)
    coded_error-KeysOnly request_id none = OnlyKeys-refl
    coded_error-KeysOnly request_id (some code) = store_error-KeysOnly request_id code

    store_answer-OnlyKeys :
        (request_id : Str) (success : ℕ) (x : Res (A × List Event) × Db)
        → OnlyKeys x.1 (store_answer encode decode refuses now scope request_id success x).1
    unfolding store_answer
    store_answer-OnlyKeys request_id success (err e, db) = coded_error-KeysOnly request_id _ db
    store_answer-OnlyKeys request_id success (ok (a, events), db) =
        after-OnlyKeys db _ _ (complete_key-OnlyKeys refuses scope success (encode a) now db)
          λ _ d. OnlyKeys-refl d

    -- What holds of the state that the work starts from, and of the one that it leaves, holds after
    -- the transaction, if it does not depend on the keys.
    module _ (R : Db → Type 0) (blind : (d d' : Db) → OnlyKeys d d' → R d → R d')
        (work : Tx (A × List Event)) (db : Db) (before : R db)
        (after : (keys : Keys) → R (work (record db { keys = keys })).1) where
      answer_work-Keeps :
          (request_id hash : Str) (success : ℕ)
          → R (answer_work encode decode refuses now scope request_id hash success work db).1
      unfolding answer_work replayed
      answer_work-Keeps request_id hash success =
          begun (begin_answer encode decode refuses now scope hash db)
            (begin_answer-KeysOnly hash db)
        where
          begun :
              (x : Res (Option IdempotencyRecord) × Db)
              → OnlyKeys db x.1
              → R (go_on x (on_begun encode decode refuses now scope request_id success work)).1
          begun (err e, d) o = blind db d o before
          begun (ok (some r), d) o = blind db d o before
          begun (ok none, d) (keys, e) =
              blind (work d).1 _ (store_answer-OnlyKeys request_id success (work d))
                (subst (λ x. R (work x).1) (sym e) (after keys))

      settled-Keeps : (refused : Bool) (x : Res (Answer A) × Db) → R x.1 → R (settle refused db x).1
      settled-Keeps refused (err e, d) r = before
      settled-Keeps true (ok a, d) r = before
      settled-Keeps false (ok a, d) r = r

  conclude-state : (x : Res (Answer A) × Db) → (conclude x).1 ≡ x.1
  conclude-state (err e, db) = refl
  conclude-state (ok (err e, events), db) = refl
  conclude-state (ok (ok a, events), db) = refl

  -- The same after the whole of `idempotent`.
  pub idempotent-Keeps :
      (R : Db → Type 0)
      → ((d d' : Db) → OnlyKeys d d' → R d → R d')
      → (work : Tx (A × List Event)) (db : Db) → R db
      → ((keys : Keys) → R (work (record db { keys = keys })).1)
      → (meta : CommandMeta) (path hash : Str) (success : ℕ)
      → R (idempotent encode decode refuses now meta path hash success work db).1
  unfolding idempotent transact
  idempotent-Keeps R blind work db before after meta path hash success =
      elim (Result-cases (new_idempotency_key meta.key)) [
        | inl (e, k) ↦ rw (k, idempotent) before
        | inr (key, k) ↦
            let scope = idempotency_scope meta.actor path key in
            let x =
              answer_work encode decode refuses now scope meta.request_id hash success work db in
            rw (idempotent, k, conclude-state (settle (refuses Query.commit) db x))
              (settled-Keeps scope R blind work db before after (refuses Query.commit) x
                (answer_work-Keeps scope R blind work db before after meta.request_id hash success))
      ]

-- ===== src/Service/Session/Change.antt =====
-- `mutatePair` of server/internal/service/support_sessions.go, for any change of a request and its
-- session: what it leaves behind, and what the next request with its key gets.
use mite.Prelude.{
  ℕ, ◌<◌, ◌≡◌, refl, ◌∙◌, sym, ap, inl, inr, true, List, arith, Bool-cases, write_self, ok, err,
  Result-cases,
}
use mite.Text.{Str}
use mite.Json.{pair_body}
use mite.Domain.Errors.{Error, Res}
use mite.Domain.Support.{SupportRequest, SupportSession, validate_expected_revision}
use mite.Domain.Idempotency.{IdempotencyScope, eq_scope}
use mite.Domain.Event.{Event, support_request_updated, support_session_updated}
use mite.Repository.{Db, Tx}
use mite.Repository.Keys.{put_key}
use mite.Repository.Bind.{Step-cases}
use mite.Service.Env.{Env}
use mite.Service.Snapshot.{request_snapshot, session_snapshot}
use mite.Service.Session.Common.{
  SupportSessionPair, decode_pair_replay, pair_events, is_persistent_business_error,
}
use mite.Service.Session.Held.{reject}
use mite.Service.Session.Pair.{store_pair, change_checked}
use mite.Service.Session.Replay.{IsHeld, KeysOnly}
use mite.Service.Session.Answer.{
  Ends, reject-Ends, decode_pair, decode_pair_replay-ReadsErrors, KeysOnly-put, IsHeld-keys,
  complete_key-cases,
}

-- A change keeps the keys, and an error that would be stored comes before its writes.
abbrev pub IsChange : (SupportRequest → SupportSession → Tx SupportSessionPair) → Type 0
IsChange change =
    (request : SupportRequest) (session : SupportSession) (db : Db)
    → ((change request session db).1.keys ≡ db.keys)
      × ((e : Error)
          → (change request session db).0 ≡ err e
          → is_persistent_business_error e ≡ true
          → (change request session db).1 ≡ db)

-- The check before a change: a refused revision ends it, and any other goes on.
abbrev pub Changed :
    Env
    → (SupportRequest → SupportSession → Tx SupportSessionPair)
    → SupportRequest
    → SupportSession
    → Db
    → SupportSessionPair
    → List Event
    → Db
    → Type 0
Changed env change request locked db pair events db' =
    (held : Db) × (changed : Db) × KeysOnly db held
    × (change request locked held ≡ (ok pair, changed))
    × KeysOnly changed db'
    × (pair_events env support_request_updated pair.support_request support_session_updated
          pair.support_session
        ≡ ok events)

module _ (env : Env) (scope : IdempotencyScope) (hash : Str) (request_id : Str) (status : ℕ)
    (small : status < 400) where
  store_pair-Ends :
      (Q : SupportSessionPair → List Event → Db → Type 0) (pair : SupportSessionPair) (db0 db : Db)
      → IsHeld db scope hash
      → ((events : List Event) (db' : Db)
          → KeysOnly db db'
          → pair_events env support_request_updated pair.support_request support_session_updated
              pair.support_session
            ≡ ok events
          → Q pair events db')
      → Ends
          (λ r. decode_pair_replay r status)
          scope
          hash
          Q
          db0
          (store_pair env scope status support_request_updated support_session_updated pair db)
  unfolding store_pair
  store_pair-Ends Q pair db0 db held q =
      elim (complete_key-cases env scope hash status
        (pair_body (request_snapshot pair.support_request) (session_snapshot pair.support_session))
        db refl held) [
          | inl p ↦ rw p tt
          | inr (row, p, done, same, v, s, b) ↦
              elim (Result-cases (
                pair_events env support_request_updated pair.support_request support_session_updated
                  pair.support_session)) [
                    | inl (e, n) ↦ rw (p, n) tt
                    | inr (events, n) ↦
                        rw (p, n)
                          (
                            (
                              row,
                              write_self db.keys scope _,
                              done,
                              same,
                              v,
                              decode_pair row status pair s b,
                            ),
                            inr (
                                q events (put_key scope row db) (KeysOnly-put db db scope row refl)
                                  n),
                          )
                  ]
        ]

  module _ (change : SupportRequest → SupportSession → Tx SupportSessionPair)
      (clean : IsChange change) where
    pub change_checked-Ends :
        (expected : ℕ) (request : SupportRequest) (locked : SupportSession) (db0 db : Db)
        → KeysOnly db0 db
        → IsHeld db scope hash
        → Ends
            (λ r. decode_pair_replay r status)
            scope
            hash
            (λ pair events db'.
              Changed env change request locked db0 pair events db' × (locked.revision ≡ expected))
            db0
            (change_checked env expected scope request_id status change request locked db)
    unfolding change_checked validate_expected_revision
    change_checked-Ends expected request locked db0 db k held =
        elim (Result-cases (validate_expected_revision locked.revision expected)) [
          | inl (e, p) ↦ rw p (rejected e db k held)
          | inr (_, p) ↦ elim (Step-cases (change request locked db)) [
            | inl (e, db', c) ↦ elim (Bool-cases (is_persistent_business_error e)) [
              | inr n ↦ rw (p, c, n) tt
              | inl n ↦ rw (p, c, n) (rejected e db' (k' e db' c n) (held' e db' c n))
            ]
            | inr (pair, db', c) ↦
                rw (p, c)
                  (store_pair-Ends _ pair db0 db'
                    (IsHeld-keys db db' scope hash
                      (ap (λ (x : Res SupportSessionPair × Db). x.1.keys) (sym c)
                        ∙ (clean request locked db).0)
                      held)
                    (λ events db'' l n. ((db, db', k, c, l, n), ground arith)))
          ]
        ]
      where
        rejected :
            (e : Error) (d : Db)
            → KeysOnly db0 d
            → IsHeld d scope hash
            → Ends
                (λ r. decode_pair_replay r status)
                scope
                hash
                (λ pair events db'.
                  Changed env change request locked db0 pair events db'
                  × (locked.revision ≡ expected))
                db0
                (reject env scope e request_id d)
        rejected e d =
            reject-Ends (λ r. decode_pair_replay r status)
              (decode_pair_replay-ReadsErrors status small) env scope hash _ e request_id db0 d

        same :
            (e : Error) (db' : Db)
            → change request locked db ≡ (err e, db')
            → is_persistent_business_error e ≡ true
            → db' ≡ db
        same e db' c n =
            sym (ap (λ (x : Res SupportSessionPair × Db). x.1) c)
            ∙ (clean request locked db).1 e (ap (λ (x : Res SupportSessionPair × Db). x.0) c) n

        k' :
            (e : Error) (db' : Db)
            → change request locked db ≡ (err e, db')
            → is_persistent_business_error e ≡ true
            → KeysOnly db0 db'
        k' e db' c n = rw (same e db' c n) k

        held' :
            (e : Error) (db' : Db)
            → change request locked db ≡ (err e, db')
            → is_persistent_business_error e ≡ true
            → IsHeld db' scope hash
        held' e db' c n = rw (same e db' c n) held

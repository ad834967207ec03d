-- ===== src/Service/Companion/Once.antt =====
-- The pushes of server/internal/service/companion.go: the family is told once about a request while
-- the user stays connected.
use mite.Prelude.{◌+◌, ◌≤◌, Bool, List, [], ◌∷◌, ◌++◌, length, length-append, arith}
use mite.Domain.Enums.{eq_presence_status}
use mite.Domain.Value.{DomainId}
use mite.Domain.User.{UserPair, Actor}
use mite.Domain.Support.{Time}
use mite.Repository.{Db, Query}
use mite.Service.Companion.{Options, Push, record_heartbeat, notify_request_created}
use mite.Service.Companion.Beats.{
  IsUnrepeated, left, record_heartbeat-Tells, notify_request_created-Tells,
}
use mite.Service.Companion.Presence.{IsPresent}
use mite.Service.Companion.Pushed.{
  HasBeaten, HasCreated, record_heartbeat-HasBeaten, notify_request_created-HasCreated,
  HasBeaten-IsPresent, HasCreated-IsPresent,
}

-- A heartbeat of an actor, or the creation of a request of a pair, with what PostgreSQL refuses then
-- and the clock.
pub data Signal : Type 0 where
  beats : (Query → Bool) → Time → Actor → Signal
  creates : (Query → Bool) → Time → UserPair → DomainId → Signal

module _ (options : Options) (before : DomainId → DomainId → Bool) (ids : List DomainId) where
  abbrev pub signal : Signal → Db → Db × List Push
  signal (beats refuses now actor) db =
      left (record_heartbeat options refuses before ids now actor db)
  signal (creates refuses now pair id) db =
      notify_request_created options refuses before ids now pair id db

  signal-Tells :
      (s : Signal) (db : Db)
      → (IsUnrepeated db.notified → IsUnrepeated (signal s db).0.notified)
        × (length (signal s db).1 + length db.notified ≤ length (signal s db).0.notified)
  signal-Tells (beats refuses now actor) db =
      record_heartbeat-Tells refuses options before ids now actor db
  signal-Tells (creates refuses now pair id) db =
      notify_request_created-Tells refuses options before ids now pair id db

  -- The state after signals, and all their pushes.
  abbrev pub signals : List Signal → Db → Db × List Push
  signals [] db = (db, [])
  signals (s ∷ ss) db = let rest = signals ss (signal s db).0 in (rest.0, (signal s db).1 ++ rest.1)

  -- What a signal leaves, and what it tells: of a request that has taken its row at the epoch of the
  -- connection of its user.
  abbrev pub HasSignalled : Signal → Db → Db × List Push → Type 0
  HasSignalled (beats refuses now actor) db x = HasBeaten refuses options before ids now actor db x
  HasSignalled (creates refuses now pair id) db x =
      HasCreated refuses options before ids now pair id db x

  signal-HasSignalled :
      (s : Signal) (db : Db)
      → IsPresent db
      → HasSignalled s db (signal s db) × IsPresent (signal s db).0
  signal-HasSignalled (beats refuses now actor) db present =
      let beaten = record_heartbeat-HasBeaten refuses options before ids now actor db present in
      (
        beaten,
        HasBeaten-IsPresent refuses options before ids now actor db
            (signal (beats refuses now actor) db) beaten present,
      )
  signal-HasSignalled (creates refuses now pair id) db present =
      let created = notify_request_created-HasCreated refuses options before ids now pair id db in
      (
        created,
        HasCreated-IsPresent refuses options before ids now pair id db
            (signal (creates refuses now pair id) db) created present,
      )

  -- Each of the signals, in the state that the ones before it leave.
  abbrev pub Follows : List Signal → Db → Type 0
  Follows [] db = Unit
  Follows (s ∷ ss) db = HasSignalled s db (signal s db) × Follows ss (signal s db).0

  -- Where presences have their keys and no request is in the table twice at one epoch, this holds of
  -- all heartbeats and new requests that follow one another. A heartbeat that is recorded starts its
  -- user's first connection at epoch 1, gives the connection the next epoch if it comes the
  -- reconnection time or more after the last heartbeat, and else leaves the epoch and the start of the
  -- connection alone; no other signal changes a presence. A push names the family, and the signal that
  -- sends it has put one row into the table, of the request that it created or of the waiting one of
  -- the user, at the epoch of the user's connection after it, 0 without any, where that request had
  -- no row. So no request is in the table twice at one epoch, and there are no more pushes than new
  -- rows.
  pub signals-once :
      (ss : List Signal) (db : Db)
      → IsPresent db
      → IsUnrepeated db.notified
      → Follows ss db
        × IsUnrepeated (signals ss db).0.notified
        × (length (signals ss db).1 + length db.notified ≤ length (signals ss db).0.notified)
  signals-once [] db present u = (tt, u, omega arith)
  signals-once (s ∷ ss) db present u =
      let first = signal-Tells s db in
      let (signalled, still) = signal-HasSignalled s db present in
      let rest = signals-once ss (signal s db).0 still (first.0 u) in
      (
        (signalled, rest.0),
        rest.1,
        omega
            (arith, first.1, rest.2, length-append (signal s db).1 (signals ss (signal s db).0).1),
      )

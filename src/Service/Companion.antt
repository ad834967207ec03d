-- ===== src/Service/Companion.antt =====
-- Presence in server/internal/service/companion.go: `RecordHeartbeat` and `NotifyRequestCreated`.
pub mod Beats
pub mod Presence
pub mod Pushed
pub mod Once
use mite.Prelude.{
  ℕ, ◌+◌, Bool, true, false, ◌!=◌, Option, none, some, List, [], ◌∷◌, if◌then◌else◌, leb, ltb,
  Result, ok, err,
}
use mite.Prelude
use mite.Text.{Str, ascii}
use mite.Domain.Errors.{Error, Res, fail, forbidden}
use mite.Domain.Enums.{Role, PresenceStatus, eq_presence_status}
use mite.Domain.Value.{DomainId}
use mite.Domain.User.{UserPair, Actor, authorize}
use mite.Domain.Support.{Time, SupportRequest}
use mite.Domain.Companion.{UserPresence}
use mite.Repository.{Db, Tx, Query, pure, lift, transact, ◌>>=◌}
use mite.Repository.Requests.{find_pair}
use mite.Repository.Companion.{
  lock_presence, create_presence, update_presence, get_pending, reserve_notification, current_epoch,
}
use mite.Service.Deletion.{normalize_repository_error}
use mite.Service.Request.Common.{require_role, or_fail}

-- `CompanionServiceOptions`: the durations, and whether pushes are configured.
pub record Options : Type 0 where
  pub online_after : ℕ
  pub offline_after : ℕ
  pub reconnect_after : ℕ
  pub enabled : Bool

-- A call of `Notify`: the family, and what it is told.
pub record Push : Type 0 where
  pub family_id : DomainId
  pub kind : Str

-- The result, the state, and the pushes that are tried.
abbrev pub Outcome : Type 0 → Type 0
Outcome A = Res A × Db × List Push

module _ (options : Options) where
  abbrev pub status_at : Option Time → Option Time → Time → PresenceStatus
  status_at since none now = PresenceStatus.offline
  status_at none (some seen) now =
      if ltb (seen + options.offline_after) now
      then PresenceStatus.offline
      else PresenceStatus.connecting
  status_at (some since) (some seen) now =
      if ltb (seen + options.offline_after) now
      then PresenceStatus.offline
      else if ltb now (since + options.online_after)
      then PresenceStatus.connecting
      else PresenceStatus.online

  -- `withComputedStatus`.
  unfoldable pub with_computed_status : UserPresence → Time → UserPresence
  with_computed_status p now = record p { status = status_at p.connected_since p.last_seen_at now }

  -- The presence that a heartbeat writes: a new connection after a long absence. A stored row has its
  -- times, so that their dereferences hold.
  abbrev pub beat_times : Option Time → Option Time → ℕ → Time → Option Time × ℕ
  beat_times since none epoch now = (since, epoch)
  beat_times since (some seen) epoch now =
      if leb (seen + options.reconnect_after) now then (some now, epoch + 1) else (since, epoch)

  abbrev pub beaten : UserPresence → Time → UserPresence
  beaten p now =
      let next = beat_times p.connected_since p.last_seen_at p.connection_epoch now in
      record p {
        connected_since = next.0;
        connection_epoch = next.1;
        last_seen_at = some now;
        updated_at = some now;
      }

  -- `notifyBestEffort`.
  abbrev pub notify : Bool → DomainId → Str → List Push
  notify reserved family_id kind =
      if reserved
      then if options.enabled then record { family_id = family_id; kind = kind } ∷ [] else []
      else []

  module _ (refuses : Query → Bool) (before : DomainId → DomainId → Bool) (ids : List DomainId)
      (now : Time) where
    abbrev pub beat : DomainId → Option UserPresence → Tx UserPresence
    beat user_id none = create_presence refuses user_id now
    beat user_id (some p) = update_presence refuses (beaten p now)

    abbrev pub reserve_for : UserPresence → Option SupportRequest → Tx (UserPresence × Bool)
    reserve_for p none = pure (p, false)
    reserve_for p (some r) =
        reserve_notification refuses r.id p.connection_epoch >>= λ reserved. pure (p, reserved)

    unfoldable pub reserve_online : DomainId → UserPresence → Tx (UserPresence × Bool)
    unfolding get_pending reserve_notification
    reserve_online user_id p =
        if p.status != PresenceStatus.online
        then pure (p, false)
        else (get_pending refuses before ids user_id >>= reserve_for p)

    -- The transaction of `RecordHeartbeat`.
    unfoldable pub heartbeat_work : DomainId → Tx (UserPresence × Bool)
    unfolding lock_presence create_presence update_presence with_computed_status reserve_online
    heartbeat_work user_id = do
      stored ← lock_presence refuses user_id
      row ← beat user_id stored
      reserve_online user_id (with_computed_status row now)

    abbrev pub report_heartbeat : UserPair → Res (UserPresence × Bool) × Db → Outcome UserPresence
    report_heartbeat pair (err e, db) = (err (normalize_repository_error e), db, [])
    report_heartbeat pair (ok (p, reserved), db) =
        (ok p, db, notify reserved pair.family_id (ascii "ONLINE_WITH_PENDING_REQUEST"))

    -- `authorizedPair`.
    unfoldable pub authorized_pair : Actor → Role → Db → Res UserPair
    unfolding find_pair
    authorized_pair actor role db = elim (find_pair refuses actor.id db).0 [
      | err e ↦ err (normalize_repository_error e)
      | ok row ↦
          Prelude.◌>>=◌ (or_fail row forbidden)
            λ pair. Prelude.◌>>=◌ (authorize pair actor (role ∷ [])) λ _. ok pair
    ]

    -- `RecordHeartbeat`.
    unfoldable pub record_heartbeat : Actor → Db → Outcome UserPresence
    unfolding require_role authorized_pair heartbeat_work normalize_repository_error
    record_heartbeat actor db =
        elim (Prelude.◌>>=◌ (require_role actor Role.user)
          λ _. authorized_pair actor Role.user db) [
            | err e ↦ (err e, db, [])
            | ok pair ↦
                report_heartbeat pair
                  (transact (refuses Query.commit) (heartbeat_work pair.user_id) db)
          ]

    abbrev pub epoch_or_zero : Option ℕ → ℕ
    epoch_or_zero none = 0
    epoch_or_zero (some epoch) = epoch

    unfoldable pub created_work : UserPair → DomainId → Tx Bool
    unfolding current_epoch reserve_notification
    created_work pair request_id = do
      epoch ← current_epoch refuses pair.user_id
      reserve_notification refuses request_id (epoch_or_zero epoch)

    abbrev pub report_created : UserPair → Res Bool × Db → Db × List Push
    report_created pair (err e, db) = (db, [])
    report_created pair (ok reserved, db) =
        (db, notify reserved pair.family_id (ascii "NEW_SUPPORT_REQUEST"))

    -- `NotifyRequestCreated`.
    unfoldable pub notify_request_created : UserPair → DomainId → Db → Db × List Push
    unfolding created_work
    notify_request_created pair request_id db = elim options.enabled [
      | false ↦ (db, [])
      | true ↦
          report_created pair (transact (refuses Query.commit) (created_work pair request_id) db)
    ]

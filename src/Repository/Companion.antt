-- ===== src/Repository/Companion.antt =====
-- The rows of `user_presences` and of `support_request_presence_notifications`:
-- server/internal/repository/companion.go with db/queries/companion.sql.
use mite.Prelude.{
  ℕ, ◌+◌, Bool, true, false, ◌&&◌, ◌||◌, Option, none, some, List, [], ◌∷◌, if◌then◌else◌, ltb,
  ◌==◌, eq_nat, is_nil, write, ok, err,
}
use mite.Prelude
use mite.Text.{eq_str}
use mite.Domain.Errors.{Res, no_rows, failure}
use mite.Domain.Enums.{SupportRequestStatus, eq_support_request_status, PresenceStatus}
use mite.Domain.Value.{DomainId}
use mite.Domain.Support.{Time, SupportRequest}
use mite.Domain.Companion.{UserPresence, validate_stored}
use mite.Repository.{Tx, Query, guarded}
use mite.Repository.Leaves.{asks}
use mite.Repository.Requests.{request_row}

-- `companionPresenceFromDB`: a row has no status, and is validated.
unfoldable pub presence_from_db : UserPresence → Res UserPresence
presence_from_db p = Prelude.◌>>=◌ (validate_stored p) λ _. ok p

unfoldable pub presence_row : Option UserPresence → Res (Option UserPresence)
unfolding presence_from_db
presence_row none = ok none
presence_row (some p) = Prelude.◌>>=◌ (presence_from_db p) λ p. ok (some p)

abbrev pub first_presence : DomainId → Time → UserPresence
first_presence user_id now = record {
  user_id = user_id;
  status = PresenceStatus.other [];
  connected_since = some now;
  last_seen_at = some now;
  updated_at = some now;
  connection_epoch = 1;
  revision = 1;
}

-- The row that `CompanionUpdateUserPresence` leaves.
abbrev pub seen_presence : UserPresence → UserPresence → UserPresence
seen_presence value row = record row {
  connected_since = value.connected_since;
  last_seen_at = value.last_seen_at;
  connection_epoch = value.connection_epoch;
  updated_at = value.updated_at;
  revision = row.revision + 1;
}

abbrev pub put_presence : UserPresence → Tx UserPresence
put_presence row db =
    (presence_from_db row, record db { presences = write db.presences row.user_id (some row) })

abbrev pub create_at : Option UserPresence → UserPresence → Tx UserPresence
create_at none row db = put_presence row db
create_at (some old) row db = (err failure, db)

abbrev pub update_at : Option UserPresence → UserPresence → Tx UserPresence
update_at none value db = (err no_rows, db)
update_at (some row) value db = put_presence (seen_presence value row) db

-- `status = 'PENDING' AND support_session_id IS NULL`.
abbrev pub is_waiting : DomainId → SupportRequest → Bool
is_waiting user_id r =
    r.user_id == user_id && r.status == SupportRequestStatus.pending && is_nil r.support_session_id

-- `ORDER BY created_at DESC, id DESC LIMIT 1`; `before` is the collation of the ids.
abbrev pub newer : (DomainId → DomainId → Bool) → SupportRequest → SupportRequest → Bool
newer before r u =
    ltb u.created_at r.created_at || (r.created_at == u.created_at && before u.id r.id)

abbrev pub newest :
    (DomainId → DomainId → Bool)
    → DomainId
    → Option SupportRequest
    → Option SupportRequest
    → Option SupportRequest
newest before user_id none rest = rest
newest before user_id (some r) none = if is_waiting user_id r then some r else none
newest before user_id (some r) (some u) =
    if is_waiting user_id r && newer before r u then some r else some u

unfoldable pub pending_of :
    (DomainId → DomainId → Bool)
    → DomainId
    → (DomainId → Option SupportRequest)
    → List DomainId
    → Option SupportRequest
pending_of before user_id requests [] = none
pending_of before user_id requests (id ∷ ids) =
    newest before user_id (requests id) (pending_of before user_id requests ids)

unfoldable pub was_notified : DomainId → ℕ → List (DomainId × ℕ) → Bool
was_notified id epoch [] = false
was_notified id epoch (n ∷ ns) = (n.0 == id && n.1 == epoch) || was_notified id epoch ns

-- `INSERT … ON CONFLICT DO NOTHING`, and whether a row was inserted.
abbrev pub reserve_if : Bool → DomainId → ℕ → Tx Bool
reserve_if true id epoch db = (ok false, db)
reserve_if false id epoch db = (ok true, record db { notified = (id, epoch) ∷ db.notified })

abbrev pub epoch_of : Option UserPresence → Option ℕ
epoch_of none = none
epoch_of (some p) = some p.connection_epoch

module _ (refuses : Query → Bool) where
  unfoldable pub lock_presence : DomainId → Tx (Option UserPresence)
  unfolding presence_row
  lock_presence id db =
      guarded (refuses Query.lock_presence) (asks (λ db. presence_row (db.presences id))) db

  unfoldable pub create_presence : DomainId → Time → Tx UserPresence
  unfolding presence_from_db
  create_presence id now db =
      guarded (refuses Query.create_presence) (create_at (db.presences id) (first_presence id now))
        db

  unfoldable pub update_presence : UserPresence → Tx UserPresence
  unfolding presence_from_db
  update_presence value db =
      guarded (refuses Query.update_presence) (update_at (db.presences value.user_id) value) db

  unfoldable pub get_pending :
      (DomainId → DomainId → Bool) → List DomainId → DomainId → Tx (Option SupportRequest)
  unfolding pending_of request_row
  get_pending before ids user_id db =
      guarded (refuses Query.get_pending)
        (asks (λ db. request_row (pending_of before user_id db.requests ids))) db

  unfoldable pub reserve_notification : DomainId → ℕ → Tx Bool
  unfolding was_notified
  reserve_notification id epoch db =
      guarded (refuses Query.reserve) (reserve_if (was_notified id epoch db.notified) id epoch) db

  unfoldable pub current_epoch : DomainId → Tx (Option ℕ)
  current_epoch id db =
      guarded (refuses Query.current_epoch) (asks (λ db. ok (epoch_of (db.presences id)))) db

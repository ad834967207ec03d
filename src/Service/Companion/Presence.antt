-- ===== src/Service/Companion/Presence.antt =====
-- What the transactions of server/internal/service/companion.go make of the presences of the users and
-- of the notifications.
use mite.Prelude.{
  ℕ, ◌+◌, ◌≤◌, ◌<◌, ◌≡◌, refl, ◌∙◌, sym, ap, ◌⊎◌, inl, inr, Bool, true, false, Bool-cases,
  Option-cases, Option, none, some, List, ◌∷◌, ok, Result-cases, ◌!=◌, arith, leb, write,
}
use mite.Text.{eq_str}
use mite.Domain.Enums.{PresenceStatus, eq_presence_status}
use mite.Domain.Value.{DomainId}
use mite.Domain.Support.{Time, SupportRequest}
use mite.Domain.Companion.{UserPresence, validate_stored}
use mite.Repository.{Db, Query}
use mite.Repository.Leaves.{
  Leaves, Leaves-err, Leaves-weaken, Leaves-pure, Leaves-go_on, Leaves-guarded, Leaves-ask,
  Leaves-if,
}
use mite.Repository.Companion.{
  was_notified, lock_presence, create_presence, update_presence, get_pending, reserve_notification,
  first_presence, seen_presence, presence_row, presence_from_db, pending_of,
}
use mite.Repository.Requests.{request_row, request_from_db}
use mite.Service.Companion.{
  Options, beat, beaten, reserve_for, reserve_online, heartbeat_work, with_computed_status,
}

-- The key of a presence is its user.
abbrev pub IsPresent : Db → Type 0
IsPresent db = (id : DomainId) (p : UserPresence) → db.presences id ≡ some p → p.user_id ≡ id

-- The last heartbeat is less than the time of a new connection ago, if there was one.
abbrev pub IsRecent : Options → Time → Option Time → Type 0
IsRecent options now none = Unit
IsRecent options now (some seen) = now < seen + options.reconnect_after

-- The presence that a heartbeat leaves: the connection is the first one, or a new one, with the next
-- epoch, if the user was silent for too long, and else the same one with the same epoch.
abbrev pub Beats : Options → Time → Option UserPresence → UserPresence → Type 0
Beats options now none row =
    (row.last_seen_at ≡ some now) × (row.connected_since ≡ some now) × (row.connection_epoch ≡ 1)
Beats options now (some p) row =
    (row.last_seen_at ≡ some now)
    × (((seen : Time) × (p.last_seen_at ≡ some seen)
          × (seen + options.reconnect_after ≤ now)
          × (row.connected_since ≡ some now)
          × (row.connection_epoch ≡ p.connection_epoch + 1))
        ⊎ (IsRecent options now p.last_seen_at
            × (row.connected_since ≡ p.connected_since)
            × (row.connection_epoch ≡ p.connection_epoch)))

-- A request has taken a row at an epoch that it had none at.
abbrev pub Takes : (DomainId → Type 0) → ℕ → Db → Db → Type 0
Takes About epoch db d =
    (id : DomainId) × About id
    × (was_notified id epoch db.notified ≡ false)
    × (d.notified ≡ (id, epoch) ∷ db.notified)

abbrev pub Took : (DomainId → Type 0) → ℕ → Db → Bool → Db → Type 0
Took About epoch db true d = (d.presences ≡ db.presences) × Takes About epoch db d
Took About epoch db false d = (d.presences ≡ db.presences) × (d.notified ≡ db.notified)

module _ (refuses : Query → Bool) (options : Options) (before : DomainId → DomainId → Bool)
    (ids : List DomainId) (now : Time) where
  -- The newest request of the user that waits is the one that a heartbeat tells of.
  abbrev pub IsPending : DomainId → Db → DomainId → Type 0
  IsPending user_id db id =
      (r : SupportRequest) × (pending_of before user_id db.requests ids ≡ some r) × (r.id ≡ id)

  pub reserve-Took :
      (About : DomainId → Type 0) (id : DomainId) (epoch : ℕ) (db : Db)
      → About id
      → Leaves (Took About epoch db) (reserve_notification refuses id epoch db)
  unfolding reserve_notification
  reserve-Took About id epoch db about =
      Leaves-guarded (Took About epoch db) (refuses Query.reserve) _ db
        (elim (Bool-cases (was_notified id epoch db.notified)) [
          | inl t ↦ rw t (Leaves-pure (Took About epoch db) false db (refl, refl))
          | inr f ↦ rw f (
              Leaves-pure (Took About epoch db) true
                (record db { notified = (id, epoch) ∷ db.notified }) (refl, (id, about, f, refl)))
        ])

  -- A heartbeat's row, as it is written.
  abbrev IsBeaten : DomainId → Db → UserPresence → Db → Type 0
  IsBeaten user_id db row d =
      (d.presences ≡ write db.presences user_id (some row))
      × (d.notified ≡ db.notified)
      × (d.requests ≡ db.requests)
      × (row.user_id ≡ user_id)
      × Beats options now (db.presences user_id) row

  put-IsBeaten :
      (user_id : DomainId) (db : Db) (row : UserPresence)
      → row.user_id ≡ user_id
      → Beats options now (db.presences user_id) row
      → Leaves (IsBeaten user_id db) (
        presence_from_db row,
        record db { presences = write db.presences row.user_id (some row) },
      )
  unfolding presence_from_db
  put-IsBeaten user_id db row same beats = elim (Result-cases (validate_stored row)) [
    | inl (e, p) ↦ rw p (Leaves-err {A = UserPresence} _ e _)
    | inr (_, p) ↦ rw p (Leaves-pure {A = UserPresence} _ row _ (at, refl, refl, same, beats))
  ]
    where
      at : write db.presences row.user_id (some row) ≡ write db.presences user_id (some row)
      at = ap (λ k. write db.presences k (some row)) same

  beaten-Beats :
      (p row : UserPresence) → Beats options now (some p) (seen_presence (beaten options p now) row)
  beaten-Beats p row = elim (Option-cases p.last_seen_at) [
    | inl n ↦ rw n (refl, inr (tt, refl, refl))
    | inr (seen, n) ↦ elim (Bool-cases (leb (seen + options.reconnect_after) now)) [
      | inl l ↦ rw (n, l) (refl, inl (seen, refl, ground (arith, l), refl, refl))
      | inr l ↦ rw (n, l) (refl, inr (ground (arith, l), refl, refl))
    ]
  ]

  beat-IsBeaten :
      (user_id : DomainId) (stored : Option UserPresence) (db : Db)
      → IsPresent db
      → db.presences user_id ≡ stored
      → Leaves (IsBeaten user_id db) (beat options refuses before ids now user_id stored db)
  unfolding create_presence update_presence
  beat-IsBeaten user_id none db present at =
      Leaves-guarded (IsBeaten user_id db) (refuses Query.create_presence) _ db (
        rw at
          (put-IsBeaten user_id db (first_presence user_id now) refl (rw at (refl, refl, refl))))
  beat-IsBeaten user_id (some p) db present at =
      Leaves-guarded (IsBeaten user_id db) (refuses Query.update_presence) _ db (
        rw (present user_id p at, at)
          (put-IsBeaten user_id db (seen_presence (beaten options p now) p) (present user_id p at)
            (rw at (beaten-Beats p p))))

  abbrev IsReserved : DomainId → UserPresence → Db → UserPresence × Bool → Db → Type 0
  IsReserved user_id p db x d = Took (IsPending user_id db) p.connection_epoch db x.1 d

  reserve_online-Took :
      (user_id : DomainId) (p : UserPresence) (db : Db)
      → Leaves
          (IsReserved user_id p db)
          (reserve_online options refuses before ids now user_id p db)
  unfolding reserve_online get_pending request_row request_from_db
  reserve_online-Took user_id p db =
      Leaves-if (IsReserved user_id p db) (p.status != PresenceStatus.online) _ _ db
        (λ _. Leaves-pure (IsReserved user_id p db) (p, false) db (refl, refl))
        λ _.
          Leaves-ask (IsReserved user_id p db) (refuses Query.get_pending)
            (λ db. request_row (pending_of before user_id db.requests ids)) _ db
            λ o e. reserved o (Option-cases (pending_of before user_id db.requests ids)) e
    where
      reserved :
          (o : Option SupportRequest)
          → (pending_of before user_id db.requests ids ≡ none)
            ⊎ ((r : SupportRequest) × (pending_of before user_id db.requests ids ≡ some r))
          → request_row (pending_of before user_id db.requests ids) ≡ ok o
          → Leaves (IsReserved user_id p db) (reserve_for options refuses before ids now p o db)
      reserved none c e = Leaves-pure (IsReserved user_id p db) (p, false) db (refl, refl)
      reserved (some r) (inl n) e = absurd (ground (arith, n, e))
      reserved (some r) (inr (q, n)) e =
          Leaves-go_on (IsReserved user_id p db) (Took (IsPending user_id db) p.connection_epoch db)
            (reserve_notification refuses r.id p.connection_epoch db) _
            (reserve-Took (IsPending user_id db) r.id p.connection_epoch db
              (q, n, ground (arith, n, e)))
            λ b d t. Leaves-pure (IsReserved user_id p db) (p, b) d t

  -- What the transaction of a heartbeat leaves.
  abbrev pub HasWorked : DomainId → Db → UserPresence × Bool → Db → Type 0
  HasWorked user_id db x d =
      (row : UserPresence) × (d.presences ≡ write db.presences user_id (some row))
      × (row.user_id ≡ user_id)
      × Beats options now (db.presences user_id) row
      × (((x.1 ≡ false) × (d.notified ≡ db.notified))
          ⊎ ((x.1 ≡ true) × Takes (IsPending user_id db) row.connection_epoch db d))

  pub heartbeat_work-HasWorked :
      (user_id : DomainId) (db : Db)
      → IsPresent db
      → Leaves (HasWorked user_id db) (heartbeat_work options refuses before ids now user_id db)
  unfolding heartbeat_work lock_presence presence_row presence_from_db with_computed_status
  heartbeat_work-HasWorked user_id db present =
      Leaves-ask (HasWorked user_id db) (refuses Query.lock_presence)
        (λ db. presence_row (db.presences user_id)) _ db
        λ stored e.
          Leaves-go_on (HasWorked user_id db) (IsBeaten user_id db)
            (beat options refuses before ids now user_id stored db) _
            (beat-IsBeaten user_id stored db present (ground (arith, e)))
            λ row d (presences, notified, requests, same, beats).
              Leaves-weaken (IsReserved user_id (with_computed_status options row now) d)
                (HasWorked user_id db) _
                (reserve_online-Took user_id (with_computed_status options row now) d)
                (worked row d presences notified requests same beats)
    where
      worked :
          (row : UserPresence) (d : Db)
          → d.presences ≡ write db.presences user_id (some row)
          → d.notified ≡ db.notified
          → d.requests ≡ db.requests
          → row.user_id ≡ user_id
          → Beats options now (db.presences user_id) row
          → (x : UserPresence × Bool) (d' : Db)
          → Took (IsPending user_id d) row.connection_epoch d x.1 d'
          → HasWorked user_id db x d'
      worked row d presences notified requests same beats (p, false) d' (a, b) =
          (row, a ∙ presences, same, beats, inl (refl, b ∙ notified))
      worked row d presences notified requests same beats (p, true) d'
            (a, (id, (r, pending, named), fresh, b)) =
          (
            row,
            a ∙ presences,
            same,
            beats,
            inr (
              refl,
              (
                id,
                (r, ap (λ rs. pending_of before user_id rs ids) (sym requests) ∙ pending, named),
                ap (was_notified id row.connection_epoch) (sym notified) ∙ fresh,
                b ∙ ap (λ ns. (id, row.connection_epoch) ∷ ns) notified,
              ),
            ),
          )

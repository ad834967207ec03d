-- ===== src/Service/Companion/Beats.antt =====
-- What one call of server/internal/service/companion.go notifies, and where it records that.
use mathlib.Core.Path.{subst}
use mite.Prelude.{
  ℕ, ◌+◌, ◌≤◌, ◌≡◌, refl, ◌∙◌, sym, ap, inl, inr, Bool, true, false, Bool-cases, Option, none, some,
  List, [], ◌∷◌, ◌++◌, length, length-append, ok, err, Result-cases, ◌!=◌, arith, if◌then◌else◌,
}
use mite.Prelude
use mite.Domain.Errors.{Res}
use mite.Domain.Enums.{Role, PresenceStatus, eq_presence_status}
use mite.Domain.Value.{DomainId}
use mite.Domain.User.{UserPair, Actor}
use mite.Domain.Support.{Time, SupportRequest}
use mite.Domain.Companion.{UserPresence}
use mite.Repository.{Db, Query, settle, transact}
use mite.Repository.Leaves.{
  Leaves, Leaves-pure, Leaves-go_on, Leaves-guarded, Leaves-ask, Leaves-state, Leaves-if, Leaves-ok,
}
use mite.Repository.Companion.{
  was_notified, lock_presence, create_presence, update_presence, get_pending, reserve_notification,
  current_epoch, create_at, update_at, first_presence, presence_row, pending_of, epoch_of,
}
use mite.Service.Request.Common.{require_role}
use mite.Repository.Requests.{request_row}
use mite.Service.Companion.{
  Options, Push, Outcome, notify, beat, beaten, reserve_for, reserve_online, heartbeat_work,
  report_heartbeat, authorized_pair, record_heartbeat, created_work, report_created,
  notify_request_created, with_computed_status,
}

-- No request is in twice with the same connection.
abbrev pub IsUnrepeated : List (DomainId × ℕ) → Type 0
IsUnrepeated [] = Unit {0}
IsUnrepeated (n ∷ ns) = (was_notified n.0 n.1 ns ≡ false) × IsUnrepeated ns

abbrev one_if : Bool → ℕ
one_if reserved = if reserved then 1 else 0

-- What an outcome leaves, and its pushes.
abbrev pub left : {A : Type 0} → Outcome A → Db × List Push
left (a, db, pushes) = (db, pushes)

-- The rows grow by one where a notification is reserved, and stay unrepeated.
abbrev Grows : List (DomainId × ℕ) → Bool → Db → Type 0
Grows ns reserved d =
    (IsUnrepeated ns → IsUnrepeated d.notified) × (length d.notified ≡ length ns + one_if reserved)

same-Grows : (db : Db) → Grows db.notified false db
same-Grows db = (λ u. u, omega arith)

module _ (refuses : Query → Bool) where
  reserve_notification-Grows :
      (id : DomainId) (epoch : ℕ) (db : Db)
      → Leaves (Grows db.notified) (reserve_notification refuses id epoch db)
  unfolding reserve_notification
  reserve_notification-Grows id epoch db =
      Leaves-guarded (Grows db.notified) (refuses Query.reserve) _ db
        (elim (Bool-cases (was_notified id epoch db.notified)) [
          | inl t ↦ rw t (Leaves-pure (Grows db.notified) false db (same-Grows db))
          | inr f ↦ rw f (
              Leaves-pure (Grows db.notified) true
                (record db { notified = (id, epoch) ∷ db.notified }) (λ u. (f, u), omega arith))
        ])

  -- A row of presences is written, and no notification.
  beat-same :
      (options : Options) (before : DomainId → DomainId → Bool) (ids : List DomainId) (now : Time)
      (user_id : DomainId) (stored : Option UserPresence) (db : Db)
      → Leaves
          (λ _ d. d.notified ≡ db.notified)
          (beat options refuses before ids now user_id stored db)
  unfolding create_presence update_presence
  beat-same options before ids now user_id none db =
      Leaves-guarded (λ _ d. d.notified ≡ db.notified) (refuses Query.create_presence) _ db
        (created (db.presences user_id))
    where
      created :
          (o : Option UserPresence)
          → Leaves (λ _ d. d.notified ≡ db.notified) (create_at o (first_presence user_id now) db)
      created none = Leaves-state (λ d. d.notified ≡ db.notified) _ refl
      created (some p) = Leaves-state (λ d. d.notified ≡ db.notified) _ refl
  beat-same options before ids now user_id (some p) db =
      Leaves-guarded (λ _ d. d.notified ≡ db.notified) (refuses Query.update_presence) _ db
        (updated (db.presences p.user_id))
    where
      updated :
          (o : Option UserPresence)
          → Leaves (λ _ d. d.notified ≡ db.notified) (update_at o (beaten options p now) db)
      updated none = Leaves-state (λ d. d.notified ≡ db.notified) _ refl
      updated (some row) = Leaves-state (λ d. d.notified ≡ db.notified) _ refl

  module _ (options : Options) (before : DomainId → DomainId → Bool) (ids : List DomainId)
      (now : Time) where
    reserve_for-Grows :
        (p : UserPresence) (o : Option SupportRequest) (db : Db)
        → Leaves
            (λ x d. Grows db.notified x.1 d)
            (reserve_for options refuses before ids now p o db)
    reserve_for-Grows p none db =
        Leaves-pure (λ x d. Grows db.notified x.1 d) (p, false) db (same-Grows db)
    reserve_for-Grows p (some r) db =
        Leaves-go_on (λ x d. Grows db.notified x.1 d) (Grows db.notified)
          (reserve_notification refuses r.id p.connection_epoch db) _
          (reserve_notification-Grows r.id p.connection_epoch db)
          λ reserved d g. Leaves-pure (λ x d. Grows db.notified x.1 d) (p, reserved) d g

    reserve_online-Grows :
        (user_id : DomainId) (p : UserPresence) (db : Db)
        → Leaves
            (λ x d. Grows db.notified x.1 d)
            (reserve_online options refuses before ids now user_id p db)
    unfolding reserve_online get_pending
    reserve_online-Grows user_id p db =
        Leaves-if (λ x d. Grows db.notified x.1 d) (p.status != PresenceStatus.online) _ _ db
          (λ _. Leaves-pure (λ x d. Grows db.notified x.1 d) (p, false) db (same-Grows db))
          λ _.
            Leaves-ask (λ x d. Grows db.notified x.1 d) (refuses Query.get_pending)
              (λ db. request_row (pending_of before user_id db.requests ids)) _ db
              λ o _. reserve_for-Grows p o db

    heartbeat_work-Grows :
        (user_id : DomainId) (db : Db)
        → Leaves
            (λ x d. Grows db.notified x.1 d)
            (heartbeat_work options refuses before ids now user_id db)
    unfolding heartbeat_work lock_presence
    heartbeat_work-Grows user_id db =
        Leaves-ask (λ x d. Grows db.notified x.1 d) (refuses Query.lock_presence)
          (λ db. presence_row (db.presences user_id)) _ db
          λ stored _.
            Leaves-go_on (λ x d. Grows db.notified x.1 d) (λ _ d. d.notified ≡ db.notified)
              (beat options refuses before ids now user_id stored db) _
              (beat-same options before ids now user_id stored db)
              λ row d e.
                subst
                  (λ ns.
                    Leaves (λ x d'. Grows ns x.1 d')
                      (reserve_online options refuses before ids now user_id
                        (with_computed_status options row now) d))
                  e (reserve_online-Grows user_id (with_computed_status options row now) d)

    created_work-Grows :
        (pair : UserPair) (id : DomainId) (db : Db)
        → Leaves (Grows db.notified) (created_work options refuses before ids now pair id db)
    unfolding created_work current_epoch
    created_work-Grows pair id db =
        Leaves-ask (Grows db.notified) (refuses Query.current_epoch)
          (λ db. ok (epoch_of (db.presences pair.user_id))) _ db
          λ epoch _. reserve_notification-Grows id _ db

    -- Each push takes a new row.
    abbrev Tells : Db → Db × List Push → Type 0
    Tells db x =
        (IsUnrepeated db.notified → IsUnrepeated x.0.notified)
        × (length x.1 + length db.notified ≤ length x.0.notified)

    told :
        (db d : Db) (reserved : Bool) (family_id kind : DomainId)
        → Grows db.notified reserved d
        → Tells db (d, notify options reserved family_id kind)
    told db d reserved family_id kind (u, n) =
        (u, omega (arith, n, few options.enabled reserved refl))
      where
        few :
            (enabled b : Bool)
            → options.enabled ≡ enabled
            → length (notify options b family_id kind) ≤ one_if b
        few enabled false e = omega arith
        few true true e = rw e (omega arith)
        few false true e = rw e (omega arith)

    report_heartbeat-Tells :
        (pair : UserPair) (db : Db) (refused : Bool) (x : Res (UserPresence × Bool) × Db)
        → Leaves (λ y d. Grows db.notified y.1 d) x
        → Tells db
            (left (report_heartbeat options refuses before ids now pair (settle refused db x)))
    report_heartbeat-Tells pair db refused (err e, d) l = (λ u. u, omega arith)
    report_heartbeat-Tells pair db true (ok y, d) l = (λ u. u, omega arith)
    report_heartbeat-Tells pair db false (ok (p, reserved), d) l =
        told db d reserved pair.family_id _
          (Leaves-ok (λ y d. Grows db.notified y.1 d) (p, reserved) d l)

    report_created-Tells :
        (pair : UserPair) (db : Db) (refused : Bool) (x : Res Bool × Db)
        → Leaves (Grows db.notified) x
        → Tells db (report_created options refuses before ids now pair (settle refused db x))
    report_created-Tells pair db refused (err e, d) l = (λ u. u, omega arith)
    report_created-Tells pair db true (ok y, d) l = (λ u. u, omega arith)
    report_created-Tells pair db false (ok reserved, d) l =
        told db d reserved pair.family_id _ (Leaves-ok (Grows db.notified) reserved d l)

    pub record_heartbeat-Tells :
        (actor : Actor) (db : Db)
        → Tells db (left (record_heartbeat options refuses before ids now actor db))
    unfolding record_heartbeat transact
    record_heartbeat-Tells actor db =
        elim (Result-cases (
          Prelude.◌>>=◌ (require_role actor Role.user)
            λ _. authorized_pair options refuses before ids now actor Role.user db)) [
              | inl (e, p) ↦ rw (p, record_heartbeat) (λ u. u, omega arith)
              | inr (pair, p) ↦
                  rw (p, record_heartbeat)
                    (report_heartbeat-Tells pair db (refuses Query.commit) _
                      (heartbeat_work-Grows pair.user_id db))
            ]

    pub notify_request_created-Tells :
        (pair : UserPair) (id : DomainId) (db : Db)
        → Tells db (notify_request_created options refuses before ids now pair id db)
    unfolding notify_request_created transact
    notify_request_created-Tells pair id db = elim (Bool-cases options.enabled) [
      | inr f ↦ rw (f, notify_request_created) (λ u. u, omega arith)
      | inl t ↦
          rw (t, notify_request_created)
            (report_created-Tells pair db (refuses Query.commit) _ (created_work-Grows pair id db))
    ]

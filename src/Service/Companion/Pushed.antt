-- ===== src/Service/Companion/Pushed.antt =====
-- Which pushes one call of server/internal/service/companion.go sends, and what it leaves.
use mathlib.Core.Path.{subst}
use mite.Prelude.{
  ℕ, ◌≡◌, refl, ◌∙◌, sym, ap, ◌⊎◌, inl, inr, Bool, true, false, Bool-cases, Option, some, List, [],
  ◌∷◌, ok, err, Result-cases, if◌then◌else◌, write, write-cases,
}
use mite.Text.{Str, ascii, eq_str}
use mite.Domain.Errors.{Res}
use mite.Domain.Enums.{Role, eq_presence_status}
use mite.Domain.Value.{DomainId}
use mite.Domain.User.{UserPair, Actor}
use mite.Domain.Support.{Time}
use mite.Domain.Companion.{UserPresence}
use mite.Repository.{Db, Query, settle, transact}
use mite.Repository.Leaves.{Leaves, Leaves-ask, Leaves-ok}
use mite.Repository.Companion.{reserve_notification, current_epoch, epoch_of}
use mite.Service.Request.Common.{require_role}
use mite.Service.Companion.{
  Options, Push, notify, heartbeat_work, report_heartbeat, authorized_pair, record_heartbeat,
  created_work, report_created, notify_request_created, epoch_or_zero,
}
use mite.Service.Companion.Beats.{left}
use mite.Service.Companion.Presence.{
  IsPresent, Beats, Takes, Took, IsPending, HasWorked, reserve-Took, heartbeat_work-HasWorked,
}

-- A request has taken its row and the family is told, if pushes are configured, or neither is so.
abbrev pub IsTold :
    Options → (DomainId → Type 0) → ℕ → DomainId → Str → Db → Db → List Push → Type 0
IsTold options About epoch family_id kind db d pushes =
    ((d.notified ≡ db.notified) × (pushes ≡ []))
    ⊎ (Takes About epoch db d
        × (pushes
            ≡ (if options.enabled then record { family_id = family_id; kind = kind } ∷ [] else [])))

module _ (refuses : Query → Bool) (options : Options) (before : DomainId → DomainId → Bool)
    (ids : List DomainId) (now : Time) where
  -- A heartbeat changes nothing and tells nothing, or it writes the presence of the pair's user and
  -- tells of a request at the epoch of the connection that it leaves.
  abbrev pub HasBeaten : Actor → Db → Db × List Push → Type 0
  HasBeaten actor db (d, pushes) =
      ((d ≡ db) × (pushes ≡ []))
      ⊎ ((pair : UserPair) × (row : UserPresence) × (authorized_pair options refuses before ids now
              actor Role.user db
            ≡ ok pair)
          × (d.presences ≡ write db.presences pair.user_id (some row))
          × (row.user_id ≡ pair.user_id)
          × Beats options now (db.presences pair.user_id) row
          × IsTold options (IsPending refuses options before ids now pair.user_id db)
              row.connection_epoch pair.family_id (ascii "ONLINE_WITH_PENDING_REQUEST") db d pushes)

  -- A new request changes no presence, and the family is told of it at the epoch of the connection
  -- that its user has.
  abbrev pub HasCreated : UserPair → DomainId → Db → Db × List Push → Type 0
  HasCreated pair id db (d, pushes) =
      (d.presences ≡ db.presences)
      × IsTold options (λ i. i ≡ id)
          (epoch_or_zero options refuses before ids now (epoch_of (db.presences pair.user_id)))
          pair.family_id (ascii "NEW_SUPPORT_REQUEST") db d pushes

  -- The pushes of an outcome tell of what was reserved.
  told :
      (About : DomainId → Type 0) (epoch : ℕ) (family_id : DomainId) (kind : Str) (db d : Db)
      (reserved : Bool)
      → ((reserved ≡ false) × (d.notified ≡ db.notified))
        ⊎ ((reserved ≡ true) × Takes About epoch db d)
      → IsTold options About epoch family_id kind db d (notify options reserved family_id kind)
  told About epoch family_id kind db d reserved (inl (n, same)) = rw n (inl (same, refl))
  told About epoch family_id kind db d reserved (inr (n, takes)) = rw n (inr (takes, refl))

  report_heartbeat-HasBeaten :
      (actor : Actor) (pair : UserPair) (db : Db) (refused : Bool)
      (x : Res (UserPresence × Bool) × Db)
      → authorized_pair options refuses before ids now actor Role.user db ≡ ok pair
      → Leaves (HasWorked refuses options before ids now pair.user_id db) x
      → HasBeaten actor db
          (left (report_heartbeat options refuses before ids now pair (settle refused db x)))
  report_heartbeat-HasBeaten actor pair db refused (err e, d) a l = inl (refl, refl)
  report_heartbeat-HasBeaten actor pair db true (ok y, d) a l = inl (refl, refl)
  report_heartbeat-HasBeaten actor pair db false (ok (p, reserved), d) a l =
      let (row, presences, same, beats, taken) =
        Leaves-ok (HasWorked refuses options before ids now pair.user_id db) (p, reserved) d l in
      inr (
        pair,
        row,
        a,
        presences,
        same,
        beats,
        told (IsPending refuses options before ids now pair.user_id db) row.connection_epoch
            pair.family_id _ db d reserved taken,
      )

  pub record_heartbeat-HasBeaten :
      (actor : Actor) (db : Db)
      → IsPresent db
      → HasBeaten actor db (left (record_heartbeat options refuses before ids now actor db))
  unfolding record_heartbeat transact
  record_heartbeat-HasBeaten actor db present = elim (Result-cases (require_role actor Role.user)) [
    | inl (e, r) ↦ rw (r, record_heartbeat) (inl (refl, refl))
    | inr (_, r) ↦
        elim (Result-cases (authorized_pair options refuses before ids now actor Role.user db)) [
          | inl (e, p) ↦ rw (r, p, record_heartbeat) (inl (refl, refl))
          | inr (pair, p) ↦
              subst (λ o. HasBeaten actor db (left o)) (sym (reported r pair p))
                (report_heartbeat-HasBeaten actor pair db (refuses Query.commit) _ p
                  (heartbeat_work-HasWorked refuses options before ids now pair.user_id db present))
        ]
  ]
    where
      reported :
          require_role actor Role.user ≡ ok tt
          → (pair : UserPair)
          → authorized_pair options refuses before ids now actor Role.user db ≡ ok pair
          → record_heartbeat options refuses before ids now actor db
            ≡ report_heartbeat options refuses before ids now pair (
                transact
                  (refuses Query.commit)
                  (heartbeat_work options refuses before ids now pair.user_id)
                  db)
      reported r pair p = rw (r, p, record_heartbeat) refl

  report_created-HasCreated :
      (pair : UserPair) (id : DomainId) (db : Db) (refused : Bool) (x : Res Bool × Db)
      → Leaves
          (Took
            (λ i. i ≡ id)
            (epoch_or_zero options refuses before ids now (epoch_of (db.presences pair.user_id)))
            db)
          x
      → HasCreated pair id db
          (report_created options refuses before ids now pair (settle refused db x))
  report_created-HasCreated pair id db refused (err e, d) l = (refl, inl (refl, refl))
  report_created-HasCreated pair id db true (ok y, d) l = (refl, inl (refl, refl))
  report_created-HasCreated pair id db false (ok true, d) l =
      let (same, takes) = Leaves-ok _ true d l in
      (same, told (λ i. i ≡ id) _ pair.family_id _ db d true (inr (refl, takes)))
  report_created-HasCreated pair id db false (ok false, d) l =
      let (same, none_taken) = Leaves-ok _ false d l in
      (same, told (λ i. i ≡ id) _ pair.family_id _ db d false (inl (refl, none_taken)))

  created_work-Took :
      (pair : UserPair) (id : DomainId) (db : Db)
      → Leaves
          (Took
            (λ i. i ≡ id)
            (epoch_or_zero options refuses before ids now (epoch_of (db.presences pair.user_id)))
            db)
          (created_work options refuses before ids now pair id db)
  unfolding created_work current_epoch
  created_work-Took pair id db =
      Leaves-ask _ (refuses Query.current_epoch) (λ db. ok (epoch_of (db.presences pair.user_id))) _
        db λ epoch e. taken epoch (epoch_of (db.presences pair.user_id)) e
    where
      taken :
          (epoch stored : Option ℕ)
          → ◌≡◌ {A = Res (Option ℕ)} (ok stored) (ok epoch)
          → Leaves (Took (λ i. i ≡ id) (epoch_or_zero options refuses before ids now stored) db) (
              reserve_notification refuses id
                (epoch_or_zero options refuses before ids now epoch)
                db)
      taken epoch stored e =
          rw (same e) (reserve-Took refuses options before ids now (λ i. i ≡ id) id _ db refl)
        where
          same : ◌≡◌ {A = Res (Option ℕ)} (ok stored) (ok epoch) → stored ≡ epoch
          same e = cc

  pub notify_request_created-HasCreated :
      (pair : UserPair) (id : DomainId) (db : Db)
      → HasCreated pair id db (notify_request_created options refuses before ids now pair id db)
  unfolding notify_request_created transact
  notify_request_created-HasCreated pair id db = elim (Bool-cases options.enabled) [
    | inr f ↦ rw (f, notify_request_created) (refl, inl (refl, refl))
    | inl t ↦ subst (HasCreated pair id db) (sym (reported t)) (
        report_created-HasCreated pair id db (refuses Query.commit) _
          (created_work-Took pair id db))
  ]
    where
      reported :
          options.enabled ≡ true
          → notify_request_created options refuses before ids now pair id db
            ≡ report_created options refuses before ids now pair (
                transact
                  (refuses Query.commit)
                  (created_work options refuses before ids now pair id)
                  db)
      reported t = simp (t, notify_request_created)

  -- A heartbeat and a new request keep the keys of the presences.
  pub HasBeaten-IsPresent :
      (actor : Actor) (db : Db) (x : Db × List Push)
      → HasBeaten actor db x
      → IsPresent db
      → IsPresent x.0
  HasBeaten-IsPresent actor db (d, pushes) (inl (same, _)) present = rw same present
  HasBeaten-IsPresent actor db (d, pushes) (inr (pair, row, _, written, named, _, _)) present =
      λ id p at.
        elim (write-cases db.presences pair.user_id id row p (ap (λ t. t id) (sym written) ∙ at)) [
          | inl (here, e) ↦ ap (λ (x : UserPresence). x.user_id) e ∙ named ∙ sym here
          | inr (apart, there) ↦ present id p there
        ]

  pub HasCreated-IsPresent :
      (pair : UserPair) (id : DomainId) (db : Db) (x : Db × List Push)
      → HasCreated pair id db x
      → IsPresent db
      → IsPresent x.0
  HasCreated-IsPresent pair id db (d, pushes) (same, _) present i p at =
      present i p (ap (λ t. t i) (sym same) ∙ at)

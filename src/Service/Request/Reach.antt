-- ===== src/Service/Request/Reach.antt =====
-- Any number of calls of the use cases of server/internal/service/artifact_support.go,
-- support_sessions.go and end_support_session.go, by anyone and with any arguments.
use mathlib.Core.Path.{subst}
use mite.Prelude.{
  ◌∙◌, Bool, fail_if, ℕ, ◌≡◌, refl, sym, inl, inr, true, List, [], ◌∷◌, ok, err, Result-cases,
  >>=-eq-ok, none, some,
}
use mite.Text.{Str, ascii, is_blank}
use mite.Domain.Errors.{Res, domain, internal_error}
use mite.Domain.Enums.{Role}
use mite.Domain.Request.{validate_comment}
use mite.Domain.Idempotency.{new_idempotency_key}
use mite.Domain.Event.{EventType}
use mite.Domain.Value.{DomainId, new_id}
use mite.Domain.User.{Actor}
use mite.Domain.Guide.{contains}
use mite.Domain.Support.{Time, SupportRequest}
use mite.Repository.{Db, Tx, Query, transact}
use mite.Repository.Leaves.{Leaves, Leaves-transact}
use mite.Service.Env.{Env, Outcome}
use mite.Service.Request.Common.{Ended, require_role, report_request}
use mite.Service.Request.Create.{
  CreateSupportRequestInput, or_internal, prepare_request, create_support_request,
}
use mite.Service.Request.Change.{
  UpdateSupportRequestAcknowledgementInput, acknowledge_work, prepare_acknowledgement, acknowledge,
  report_acknowledged, prepare_cancel, cancel_support_request,
}
use mite.Service.Request.Rows.{Changes}
use mite.Service.Request.Writes.{acknowledge_work-Changes, cancel_work-Changes}
use mite.Service.Request.Writes.Create.{create_work-Changes}
use mite.Service.Request.Orderly.{IsOrderly, Changes-IsOrderly, Advances-IsOrderly}
use mite.Service.Session.Reach.{Attempt, run, run-Advances}

-- A use case with the arguments that it gets.
pub data Command : Type 0 where
  creates : Env → Time → Actor → Str → CreateSupportRequestInput → Command
  acknowledges : Env → Actor → DomainId → UpdateSupportRequestAcknowledgementInput → Command
  cancels : Env → Actor → Str → DomainId → ℕ → Command
  attempts : Attempt → Command

report_request-state :
    (event_id : Res DomainId) (type : EventType) (at : SupportRequest → Time) (x : Res Ended × Db)
    → (report_request event_id type at x).1 ≡ x.1
report_request-state event_id type at (err e, db) = refl
report_request-state event_id type at (ok (result, none), db) = refl
report_request-state event_id type at (ok (result, some r), db) = refl

report_acknowledged-state :
    (env : Env) (x : Res SupportRequest × Db) → (report_acknowledged env x).1 ≡ x.1
report_acknowledged-state env (err e, db) = refl
report_acknowledged-state env (ok r, db) = refl

issued : (x : Res DomainId) (id : DomainId) → or_internal x ≡ ok id → x ≡ ok id
unfolding or_internal
issued (err e) id h = cc
issued (ok i) id h = h

-- The id that a request gets.
prepared-id :
    (env : Env) (later : Time) (ids : List DomainId) (actor : Actor) (raw_key : Str)
    (input : CreateSupportRequestInput) (key : Str) (id : DomainId)
    → prepare_request env later ids actor raw_key input ≡ ok (key, id)
    → env.new_id (ascii "request") 0 ≡ ok id
unfolding prepare_request
prepared-id env later ids actor raw_key input key id h =
    let a = >>=-eq-ok (require_role actor Role.user) _ h in
    let b = >>=-eq-ok (new_id input.initial_screenshot_artifact_id) _ a.2 in
    let c = >>=-eq-ok (validate_comment input.comment) _ b.2 in
    let d = >>=-eq-ok (fail_if (is_blank input.request_id) (domain internal_error)) _ c.2 in
    let e = >>=-eq-ok (new_idempotency_key raw_key) _ d.2 in
    let f = >>=-eq-ok (or_internal (env.new_id (ascii "request") 0)) _ e.2 in
    issued (env.new_id (ascii "request") 0) id (f.1 ∙ paired e.0 f.0 f.2)
  where
    paired :
        (k : Str) (i : DomainId)
        → ◌≡◌ {A = Res (Str × DomainId)} (ok (k, i)) (ok (key, id))
        → ◌≡◌ {A = Res DomainId} (ok i) (ok id)
    paired k i q = cc

module _ (ids : List DomainId) where
  abbrev pub obey : Command → Db → Db
  obey (Command.creates env later actor key input) db =
      (create_support_request env later ids actor key input db).1
  obey (Command.acknowledges env actor id input) db = (acknowledge env actor id input db).1
  obey (Command.cancels env actor key id expected) db =
      (cancel_support_request env actor key id expected db).1
  obey (Command.attempts attempt) db = run attempt db

  abbrev pub obey_all : List Command → Db → Db
  obey_all [] db = db
  obey_all (c ∷ cs) db = obey_all cs (obey c db)

  -- The ids that the requests of the commands get are listed.
  abbrev pub AreNamed : List Command → Type 0
  AreNamed [] = Unit
  AreNamed (Command.creates env later actor key input ∷ cs) =
      ((id : DomainId) → env.new_id (ascii "request") 0 ≡ ok id → contains ids id ≡ true)
      × AreNamed cs
  AreNamed (Command.acknowledges env actor id input ∷ cs) = AreNamed cs
  AreNamed (Command.cancels env actor key id expected ∷ cs) = AreNamed cs
  AreNamed (Command.attempts attempt ∷ cs) = AreNamed cs

  -- A use case that reports on a transaction changes what the transaction changes.
  reported-Changes :
      {A B : Type 0} (refused : Bool) (work : Tx A) (db : Db) (report : Res A × Db → Outcome B)
      → ((x : Res A × Db) → (report x).1 ≡ x.1)
      → Leaves (λ _ d. Changes ids db d) (work db)
      → Changes ids db (report (transact refused work db)).1
  reported-Changes refused work db report state l =
      subst (Changes ids db) (sym (state (transact refused work db)))
        (Leaves-transact refused work db (Changes ids db) (refl, inl refl) l)

  created-Changes :
      (env : Env) (later : Time) (actor : Actor) (key : Str) (input : CreateSupportRequestInput)
      (db : Db)
      → ((id : DomainId) → env.new_id (ascii "request") 0 ≡ ok id → contains ids id ≡ true)
      → Changes ids db (obey (Command.creates env later actor key input) db)
  unfolding create_support_request
  created-Changes env later actor key input db named =
      elim (Result-cases (prepare_request env later ids actor key input)) [
        | inl (e, p) ↦ rw (p, obey) (refl, inl refl)
        | inr ((k, id), p) ↦
            rw (p, obey)
              (reported-Changes (env.refuses Query.commit) _ db
                (report_request (env.new_id (ascii "evt") 0) EventType.support_request_created
                  (λ r. r.created_at))
                (report_request-state _ _ _)
                (create_work-Changes env later ids actor input _ id
                  (named id (prepared-id env later ids actor key input k id p)) _ db))
      ]

  acknowledged-Changes :
      (env : Env) (actor : Actor) (id : DomainId) (input : UpdateSupportRequestAcknowledgementInput)
      (db : Db)
      → ((r : SupportRequest) → db.requests id ≡ some r → r.id ≡ id)
      → Changes ids db (obey (Command.acknowledges env actor id input) db)
  unfolding acknowledge
  acknowledged-Changes env actor id input db filed =
      elim (Result-cases (prepare_acknowledgement env actor id input)) [
        | inl (e, p) ↦ rw (p, obey) (refl, inl refl)
        | inr (_, p) ↦
            rw (p, obey)
              (reported-Changes (env.refuses Query.commit) (acknowledge_work env actor id input) db
                (report_acknowledged env) (report_acknowledged-state env)
                (acknowledge_work-Changes env ids actor id input db filed))
      ]

  cancelled-Changes :
      (env : Env) (actor : Actor) (key : Str) (id : DomainId) (expected : ℕ) (db : Db)
      → ((r : SupportRequest) → db.requests id ≡ some r → r.id ≡ id)
      → Changes ids db (obey (Command.cancels env actor key id expected) db)
  unfolding cancel_support_request
  cancelled-Changes env actor key id expected db filed =
      elim (Result-cases (prepare_cancel env actor key id expected)) [
        | inl (e, p) ↦ rw (p, obey) (refl, inl refl)
        | inr (k, p) ↦
            rw (p, obey)
              (reported-Changes (env.refuses Query.commit) _ db
                (report_request (env.new_id (ascii "evt") 0) EventType.support_request_updated
                  (λ r. r.updated_at))
                (report_request-state _ _ _)
                (cancel_work-Changes env ids actor id expected _ _ db filed))
      ]

  -- Whatever use cases follow one another, if the ids that their requests get are listed: from tables
  -- in good order, requests and sessions stay linked in pairs, the ids of the requests are listed,
  -- and no user has two active requests.
  pub obey_all-IsOrderly :
      (cs : List Command) (db : Db)
      → AreNamed cs
      → IsOrderly ids db
      → IsOrderly ids (obey_all cs db)
  obey_all-IsOrderly [] db named good = good
  obey_all-IsOrderly (Command.creates env later actor key input ∷ cs) db (new, named) good =
      obey_all-IsOrderly cs (obey (Command.creates env later actor key input) db) named (
        Changes-IsOrderly ids db (obey (Command.creates env later actor key input) db) good
          (created-Changes env later actor key input db new))
  obey_all-IsOrderly (Command.acknowledges env actor id input ∷ cs) db named good =
      obey_all-IsOrderly cs (obey (Command.acknowledges env actor id input) db) named (
        Changes-IsOrderly ids db (obey (Command.acknowledges env actor id input) db) good
          (acknowledged-Changes env actor id input db (λ r at. (good.0.1 id r at).0)))
  obey_all-IsOrderly (Command.cancels env actor key id expected ∷ cs) db named good =
      obey_all-IsOrderly cs (obey (Command.cancels env actor key id expected) db) named (
        Changes-IsOrderly ids db (obey (Command.cancels env actor key id expected) db) good
          (cancelled-Changes env actor key id expected db (λ r at. (good.0.1 id r at).0)))
  obey_all-IsOrderly (Command.attempts attempt ∷ cs) db named good =
      obey_all-IsOrderly cs (run attempt db) named
        (Advances-IsOrderly ids db (run attempt db) good (run-Advances attempt db good.0))

-- ===== src/Service/Session/UseCases.antt =====
-- The five use cases of server/internal/service/support_sessions.go and end_support_session.go
-- refine the abstract machine of requests and sessions, whatever they are called with.
use mite.Prelude.{ℕ, refl, inl, List, ok, err}
use mite.Text.{Str, ascii}
use mite.Domain.Errors.{Res}
use mite.Domain.Enums.{GuideDecision, SupportSessionEndReason}
use mite.Domain.Event.{Event}
use mite.Domain.User.{Actor}
use mite.Domain.Support.{Consent}
use mite.Repository.{Db, Tx}
use mite.Service.Env.{Env, Outcome}
use mite.Service.Session.Common.{prepared, conclude}
use mite.Service.Session.Pair.{
  accept, accept_change, resolve, resolve_change, mutate_pair_work, session_scope, prepare_accept,
  prepare_resolve,
}
use mite.Service.Session.Call.{call, call_work, prepare_call}
use mite.Service.Session.End.{
  end_session_without_guide, end_work, prepare_end, prepare_end_saved, end_saved_session,
  end_saved_work,
}
use mite.Service.Session.Rows.{Requests, Sessions, IsConsistent, Starts, Turns, StaysOr}
use mite.Service.Session.Frame.{Steps, conclude-StaysOr}
use mite.Service.Session.Effects.{accept_change-IsChange, resolve_change-IsChange}
use mite.Service.Session.Refine.{mutate_pair_work-Steps}
use mite.Service.Session.Changes.{accept_change-IsStep, resolve_change-IsStep}
use mite.Service.Session.Start.{call_work-Steps}
use mite.Service.Session.Ending.{end_work-Steps, end_saved_work-Steps}

-- The tables of requests and sessions after a use case are those before it, or changed as a
-- relation allows.
abbrev pub RefinesBy :
    {A : Type 0} → (Requests → Sessions → Requests → Sessions → Type 0) → Db → Outcome A → Type 0
RefinesBy R db outcome = StaysOr R db.requests db.sessions outcome.1.requests outcome.1.sessions

-- The tables before and after a use case are those of a step of the abstract machine.
abbrev pub Refines : {A : Type 0} → Db → Outcome A → Type 0
Refines db outcome = RefinesBy Turns db outcome

prepared-Refines :
    {P A : Type 0} (R : Requests → Sessions → Requests → Sessions → Type 0) (env : Env) (r : Res P)
    (work : P → Tx (Res A × List Event)) (db : Db)
    → ((p : P) → Steps R db (work p db))
    → RefinesBy R db (prepared env r (λ p. conclude env (work p)) db)
prepared-Refines R env (err e) work db s = inl (refl, refl)
prepared-Refines R env (ok p) work db s = conclude-StaysOr R env (work p) db (s p)

-- `Call`, whatever it returns, leaves requests and sessions alone or, and this is the only other
-- thing that it does to them, starts one new session, RINGING at revision 1, for a pending request
-- that has none, in consistent tables; no session that is there already changes.
pub call-Refines :
    (env : Env) (preloaded : Db) (actor : Actor) (raw_id : Str) (expected : ℕ)
    (raw_key request_id : Str) (db : Db)
    → IsConsistent db.requests db.sessions
    → RefinesBy Starts db (call env preloaded actor raw_id expected raw_key request_id db)
unfolding call
call-Refines env preloaded actor raw_id expected raw_key request_id db c =
    prepared-Refines Starts env (prepare_call env preloaded actor raw_id expected raw_key)
      (λ (id, scope, hash, session_id).
        call_work env actor id session_id expected scope hash request_id)
      db
      λ (id, scope, hash, session_id).
        call_work-Steps env actor id session_id expected scope hash request_id db c

-- `Accept`, whatever it returns, makes a step of the abstract machine in consistent tables.
pub accept-Refines :
    (env : Env) (preloaded : Db) (actor : Actor) (raw_id : Str) (expected : ℕ) (consent : Consent)
    (raw_key request_id : Str) (db : Db)
    → IsConsistent db.requests db.sessions
    → Refines db (accept env preloaded actor raw_id expected consent raw_key request_id db)
unfolding accept
accept-Refines env preloaded actor raw_id expected consent raw_key request_id db c =
    prepared-Refines Turns env (prepare_accept env preloaded actor raw_id expected consent raw_key)
      (λ p.
        mutate_pair_work env actor p.session expected (session_scope env actor p (ascii "/accept"))
          p.hash request_id 200 (accept_change env consent))
      db
      λ p.
        mutate_pair_work-Steps env (accept_change env consent) (accept_change-IsChange env consent)
          (accept_change-IsStep env consent) actor p.session expected
          (session_scope env actor p (ascii "/accept")) p.hash request_id 200 db c

-- `Resolve`, whatever it returns, makes a step of the abstract machine in consistent tables.
pub resolve-Refines :
    (env : Env) (preloaded : Db) (actor : Actor) (raw_id : Str) (expected : ℕ)
    (decision : GuideDecision) (raw_key request_id : Str) (db : Db)
    → IsConsistent db.requests db.sessions
    → Refines db (resolve env preloaded actor raw_id expected decision raw_key request_id db)
unfolding resolve
resolve-Refines env preloaded actor raw_id expected decision raw_key request_id db c =
    prepared-Refines Turns env
      (prepare_resolve env preloaded actor raw_id expected decision raw_key)
      (λ p.
        mutate_pair_work env actor p.session expected (session_scope env actor p (ascii "/resolve"))
          p.hash request_id 200 (resolve_change env decision))
      db
      λ p.
        mutate_pair_work-Steps env (resolve_change env decision)
          (resolve_change-IsChange env decision) (resolve_change-IsStep env decision) actor
          p.session expected (session_scope env actor p (ascii "/resolve")) p.hash request_id 200 db
          c

-- `EndWithoutGuide`, whatever it returns, makes a step of the abstract machine in consistent
-- tables.
pub end_session_without_guide-Refines :
    (env : Env) (preloaded : Db) (actor : Actor) (raw_id : Str) (expected : ℕ)
    (reason : SupportSessionEndReason) (raw_key request_id : Str) (db : Db)
    → IsConsistent db.requests db.sessions
    → Refines db
        (end_session_without_guide env preloaded actor raw_id expected reason raw_key request_id db)
unfolding end_session_without_guide
end_session_without_guide-Refines env preloaded actor raw_id expected reason raw_key request_id db
      c =
    prepared-Refines Turns env (prepare_end env preloaded actor raw_id expected reason raw_key)
      (λ p.
        end_work env actor p.session p.id expected reason
          (session_scope env actor p (ascii "/end-without-guide")) p.hash request_id)
      db
      λ p.
        end_work-Steps env actor p.session p.id expected reason
          (session_scope env actor p (ascii "/end-without-guide")) p.hash request_id db c

-- `End`, whatever it returns, makes a step of the abstract machine in consistent tables.
pub end_saved_session-Refines :
    (env : Env) (preloaded : Db) (actor : Actor) (raw_id : Str) (expected : ℕ)
    (raw_key request_id : Str) (db : Db)
    → IsConsistent db.requests db.sessions
    → Refines db (end_saved_session env preloaded actor raw_id expected raw_key request_id db)
unfolding end_saved_session
end_saved_session-Refines env preloaded actor raw_id expected raw_key request_id db c =
    prepared-Refines Turns env (prepare_end_saved env preloaded actor raw_id expected raw_key)
      (λ p.
        end_saved_work env actor p.session p.id expected (session_scope env actor p (ascii "/end"))
          p.hash request_id)
      db
      λ p.
        end_saved_work-Steps env actor p.session p.id expected
          (session_scope env actor p (ascii "/end")) p.hash request_id db c

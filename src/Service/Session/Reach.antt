-- ===== src/Service/Session/Reach.antt =====
-- Any number of calls of the five use cases of server/internal/service/support_sessions.go and
-- end_support_session.go, one after another, by anyone and with any arguments.
use mite.Prelude.{
  ℕ, ◌+◌, ◌≡◌, refl, ◌∙◌, sym, ap, ◌⊎◌, inl, inr, true, false, Option, none, some, List, [], ◌∷◌,
  ◌++◌, arith, Bool-cases, length, write, write_ne, ◌==◌, eq_of_==,
}
use mite.Text.{Str, eq_str}
use mite.Domain.Enums.{
  GuideDecision, SupportSessionEndReason, SupportSessionStatus, SupportRequestStatus,
}
use mite.Domain.Status.{session_can_transition}
use mite.Domain.Status.Machine.{IsHistory, last_status}
use mite.Domain.Value.{DomainId}
use mite.Domain.User.{Actor}
use mite.Domain.Support.{Consent, SupportRequest, SupportSession, accepted}
use mite.Repository.{Db}
use mite.Service.Env.{Env}
use mite.Service.Session.Pair.{accept, resolve}
use mite.Service.Session.Call.{call}
use mite.Service.Session.End.{end_session_without_guide, end_saved_session}
use mite.Service.Session.Rows.{
  Requests, Sessions, IsConsistent, IsPair, IsConsented, Fits, Advances,
}
use mite.Service.Session.Rows.Consistent.{Advances-IsConsistent}
use mite.Service.Session.UseCases.{
  call-Refines, accept-Refines, resolve-Refines, end_session_without_guide-Refines,
  end_saved_session-Refines,
}

-- A use case with the arguments that it gets: the environment, the state that it reads before its
-- transaction, the actor, the id, the expected revision, the key and the id of the request.
pub data Attempt : Type 0 where
  calls ends_saved : Env → Db → Actor → Str → ℕ → Str → Str → Attempt
  accepts : Consent → Env → Db → Actor → Str → ℕ → Str → Str → Attempt
  resolves : GuideDecision → Env → Db → Actor → Str → ℕ → Str → Str → Attempt
  ends : SupportSessionEndReason → Env → Db → Actor → Str → ℕ → Str → Str → Attempt

abbrev pub run : Attempt → Db → Db
run (Attempt.calls env pre actor id revision key request_id) db =
    (call env pre actor id revision key request_id db).1
run (Attempt.ends_saved env pre actor id revision key request_id) db =
    (end_saved_session env pre actor id revision key request_id db).1
run (Attempt.accepts consent env pre actor id revision key request_id) db =
    (accept env pre actor id revision consent key request_id db).1
run (Attempt.resolves decision env pre actor id revision key request_id) db =
    (resolve env pre actor id revision decision key request_id db).1
run (Attempt.ends reason env pre actor id revision key request_id) db =
    (end_session_without_guide env pre actor id revision reason key request_id db).1

-- The states that attempts lead to from a state.
pub data Reaches (db0 : Db) : Db → Type 0 where
  start : Reaches db0 db0
  next : (db : Db) → Reaches db0 db → (attempt : Attempt) → Reaches db0 (run attempt db)

pub run-Advances :
    (attempt : Attempt) (db : Db)
    → IsConsistent db.requests db.sessions
    → Advances db.requests db.sessions (run attempt db).requests (run attempt db).sessions
run-Advances (Attempt.calls env pre actor id revision key request_id) db c =
    elim (call-Refines env pre actor id revision key request_id db c) [
      | inl same ↦ inl same
      | inr started ↦ inr (inl started)
    ]
run-Advances (Attempt.ends_saved env pre actor id revision key request_id) db c =
    end_saved_session-Refines env pre actor id revision key request_id db c
run-Advances (Attempt.accepts consent env pre actor id revision key request_id) db c =
    accept-Refines env pre actor id revision consent key request_id db c
run-Advances (Attempt.resolves decision env pre actor id revision key request_id) db c =
    resolve-Refines env pre actor id revision decision key request_id db c
run-Advances (Attempt.ends reason env pre actor id revision key request_id) db c =
    end_session_without_guide-Refines env pre actor id revision reason key request_id db c

-- From consistent tables only consistent tables are reached.
pub Reaches-IsConsistent :
    (db0 db : Db)
    → Reaches db0 db
    → IsConsistent db0.requests db0.sessions
    → IsConsistent db.requests db.sessions
Reaches-IsConsistent db0 _ start c = c
Reaches-IsConsistent db0 _ (next db r attempt) c =
    let before = Reaches-IsConsistent db0 db r c in
    Advances-IsConsistent db.requests (run attempt db).requests db.sessions
      (run attempt db).sessions before (run-Advances attempt db before)

-- What became of a session: it is still there, and its revision has counted its transitions, each
-- of them allowed.
abbrev pub Followed : SupportSession → Option SupportSession → Type 0
Followed s o =
    (s' : SupportSession) × (o ≡ some s')
    × (ts : List SupportSessionStatus) × IsHistory s.status ts
    × (s'.status ≡ last_status s.status ts)
    × (s'.revision ≡ s.revision + length ts)

extend-IsHistory :
    (s : SupportSessionStatus) (ts : List SupportSessionStatus) (t : SupportSessionStatus)
    → IsHistory s ts
    → session_can_transition (last_status s ts) t ≡ true
    → IsHistory s (ts ++ t ∷ [])
      × (last_status s (ts ++ t ∷ []) ≡ t)
      × (length (ts ++ t ∷ []) ≡ length ts + 1)
extend-IsHistory s [] t h c = ((c, tt), refl, refl)
extend-IsHistory s (u ∷ ts) t h c =
    let rest = extend-IsHistory u ts t h.1 c in ((h.0, rest.0), rest.1, omega (arith, rest.2))

Followed-step :
    (requests requests' : Requests) (sessions sessions' : Sessions) (id : DomainId)
    (s : SupportSession)
    → Advances requests sessions requests' sessions'
    → Followed s (sessions id)
    → Followed s (sessions' id)
Followed-step requests requests' sessions sessions' id s (inl (p, q)) f = rw q f
Followed-step requests requests' sessions sessions' id s
      (inr (inl (r, r', new, at, free, alone, _, _, _, _, _, _, pair, p, q)))
      (s', here, ts, h, l, n) =
    rw q (
      s',
      write_ne sessions new.id id (some new) (λ e. taken (ap sessions (sym e) ∙ free)) ∙ here,
      ts,
      h,
      l,
      n,
    )
  where
    taken : sessions id ≡ none → ⊥
    taken e = cc
Followed-step requests requests' sessions sessions' id s
      (inr (inr (r, r', old, new, at, held, _, _, allowed, rev, _, _, _, _, p, q)))
      (s', here, ts, h, l, n) =
    rw q (written (Bool-cases (old.id == id)))
  where
    moved : old.id ≡ id → s' ≡ old
    moved e = same (sym here ∙ ap sessions (sym e) ∙ held)
      where
        same : some s' ≡ some old → s' ≡ old
        same k = cc

    written :
        ((old.id == id) ≡ true) ⊎ ((old.id == id) ≡ false)
        → Followed s (write sessions old.id (some new) id)
    written (inr f) = rw f (s', here, ts, h, l, n)
    written (inl t) =
        let e = moved (eq_of_== old.id id t) in
        let more = extend-IsHistory s.status ts new.status h (rw (sym l, e) allowed) in
        rw t (
          new,
          refl,
          ts ++ new.status ∷ [],
          more.0,
          sym more.1,
          rev
              ∙ ap (λ (k : ℕ). k + 1) (ap (λ (x : SupportSession). x.revision) (sym e) ∙ n)
              ∙ omega (arith, more.2),
        )

-- A session of consistent tables never vanishes in the states that any number of attempts at Call,
-- Accept, Resolve, EndWithoutGuide and End lead to: its status has changed only along the transitions
-- that the table of statuses allows, and these five use cases have raised its revision by one at each
-- of these transitions and at nothing else. Other use cases, such as those that attach a batch or a
-- job, are not among the attempts.
pub Reaches-Followed :
    (db0 db : Db) (id : DomainId) (s : SupportSession)
    → IsConsistent db0.requests db0.sessions
    → db0.sessions id ≡ some s
    → Reaches db0 db
    → Followed s (db.sessions id)
Reaches-Followed db0 _ id s c at start = (s, at, [], tt, refl, omega arith)
Reaches-Followed db0 _ id s c at (next db r attempt) =
    Followed-step db.requests (run attempt db).requests db.sessions (run attempt db).sessions id s
      (run-Advances attempt db (Reaches-IsConsistent db0 db r c))
      (Reaches-Followed db0 db id s c at r)

-- In the states that any number of attempts at Call, Accept, Resolve, EndWithoutGuide and End lead to
-- from consistent tables, a session that is active has the full consent of the user, and its request
-- is in support.
pub Reaches-consent :
    (db0 db : Db) (id : DomainId) (s : SupportSession)
    → IsConsistent db0.requests db0.sessions
    → Reaches db0 db
    → db.sessions id ≡ some s
    → s.status ≡ SupportSessionStatus.active
    → ((k : Consent) × (s.consent ≡ some k) × (accepted k ≡ true))
      × ((r : SupportRequest) × (db.requests s.support_request_id ≡ some r)
          × (r.status ≡ SupportRequestStatus.in_support))
Reaches-consent db0 db id s c reach at active =
    paired ((Reaches-IsConsistent db0 db reach c).0 id s at)
  where
    paired :
        (s.id ≡ id)
          × (x : SupportRequest) × (db.requests s.support_request_id ≡ some x)
          × IsPair x s
        → ((k : Consent) × (s.consent ≡ some k) × (accepted k ≡ true))
          × ((r : SupportRequest) × (db.requests s.support_request_id ≡ some r)
              × (r.status ≡ SupportRequestStatus.in_support))
    paired (_, x, h, pair) = (consented pair.5, (x, h, support pair.4))
      where
        consented : IsConsented s → (k : Consent) × (s.consent ≡ some k) × (accepted k ≡ true)
        consented (inl e) = ground arith
        consented (inr k) = k

        support : Fits s.status x.status → x.status ≡ SupportRequestStatus.in_support
        support f = ground arith

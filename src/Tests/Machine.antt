-- ===== src/Tests/Machine.antt =====
-- The theorems on whole calls, at the calls of one family.
use mite.Prelude.{ℕ, ◌≡◌, refl, true, inl, inr, Option, none, some, write, write-cases}
use mite.Text.{ascii, str_eq, eq_str}
use mite.Domain.Enums.{
  GuideDecision, SupportSessionEndReason, SupportSessionStatus, SupportRequestStatus,
}
use mite.Domain.Support.{
  validate_end_saved, validate_end_without_guide, accepted, SupportSession, SupportRequest, Consent,
}
use mite.Repository.{Db}
use mite.Repository.Sessions.{end_saved_guide, end_without_guide}
use mite.Service.Env.{Outcome}
use mite.Service.Session.Common.{SupportSessionPair}
use mite.Service.Session.Pair.{resolve}
use mite.Service.Session.End.{end_session_without_guide, end_saved_session}
use mite.Service.Session.Rows.{IsConsistent, IsPair, Starts, StaysOr, Advances}
use mite.Service.Session.Rows.Consistent.{write-IsConsistent}
use mite.Service.Session.UseCases.{
  call-Refines, accept-Refines, resolve-Refines, end_session_without_guide-Refines,
  end_saved_session-Refines,
}
use mite.Service.Session.Reach.{
  Attempt, Reaches, start, next, Followed, Reaches-IsConsistent, Reaches-Followed, Reaches-consent,
}
use mite.Tests.Sample.{
  grandmother, daughter, env, waiting, ringing, supporting, full_consent, request, called_request,
  session, supported_request, active_session, db_of,
}
use mite.Tests.Calls.{machinery, called, answered}

no_rows-IsConsistent : IsConsistent (λ id. none) (λ id. none)
no_rows-IsConsistent = (λ id s h. cc, λ id r h. cc)

-- A request and its session alone are consistent tables.
alone-IsConsistent :
    (r : SupportRequest) (s : SupportSession)
    → IsPair r s
    → IsConsistent (write (λ id. none) r.id (some r)) (write (λ id. none) s.id (some s))
alone-IsConsistent r s pair =
    write-IsConsistent (λ id. none) (λ id. none) r s no_rows-IsConsistent pair (λ id x h. cc)
      (λ id x h. cc)

ringing-IsConsistent : IsConsistent ringing.requests ringing.sessions
ringing-IsConsistent =
    alone-IsConsistent called_request session (refl, refl, refl, refl, refl, inl refl)

supporting-IsConsistent : IsConsistent supporting.requests supporting.sessions
supporting-IsConsistent =
    alone-IsConsistent supported_request active_session
      (refl, refl, refl, refl, refl, inr (full_consent, refl, (unfold accepted str_eq in refl)))

-- A request that names no session is consistent without one.
unnamed-IsConsistent :
    (r : SupportRequest)
    → r.support_session_id ≡ none
    → IsConsistent (write (λ id. none) r.id (some r)) (λ id. none)
unnamed-IsConsistent r free = (
  λ id s h. cc,
  λ id x h. elim (write-cases (λ id. none) r.id id r x h) [
    | inl (e, q) ↦ rw (q, e) (refl, λ sid k. cc)
    | inr (n, q) ↦ cc
  ],
)

waiting-IsConsistent : IsConsistent waiting.requests waiting.sessions
waiting-IsConsistent = unnamed-IsConsistent request refl

call-Refines_example :
    StaysOr Starts waiting.requests waiting.sessions called.1.requests called.1.sessions
call-Refines_example =
    call-Refines env waiting daughter (ascii "r") 1 (ascii "k") (ascii "q") waiting
      waiting-IsConsistent

accept-Refines_example :
    Advances ringing.requests ringing.sessions answered.1.requests answered.1.sessions
accept-Refines_example =
    accept-Refines env ringing grandmother (ascii "s") 1 full_consent (ascii "k") (ascii "q")
      ringing ringing-IsConsistent

status_of : Option SupportSession → Option (SupportSessionStatus × ℕ)
status_of none = none
status_of (some s) = some (s.status, s.revision)

abbrev after_resolve : Outcome SupportSessionPair
after_resolve =
    resolve env supporting daughter (ascii "s") 2 GuideDecision.skip (ascii "k") (ascii "q")
      supporting

resolved_row :
    status_of (after_resolve.1.sessions (ascii "s")) ≡ some (SupportSessionStatus.ended, 3)
unfolding machinery status_of
resolved_row = refl

resolve-Refines_example :
    Advances supporting.requests supporting.sessions after_resolve.1.requests
      after_resolve.1.sessions
resolve-Refines_example =
    resolve-Refines env supporting daughter (ascii "s") 2 GuideDecision.skip (ascii "k") (ascii "q")
      supporting supporting-IsConsistent

-- The family wants a guide, and the user then has no materials for it.
abbrev guided : Db
guided =
    (resolve env supporting daughter (ascii "s") 2 GuideDecision.create (ascii "k") (ascii "q")
      supporting).1

guided-IsConsistent : IsConsistent guided.requests guided.sessions
guided-IsConsistent =
    Reaches-IsConsistent supporting guided
      (next supporting start (
        Attempt.resolves GuideDecision.create env supporting daughter (ascii "s") 2 (ascii "k")
          (ascii "q")))
      supporting-IsConsistent

abbrev given_up : Outcome SupportSession
given_up =
    end_session_without_guide env guided grandmother (ascii "s") 3
      SupportSessionEndReason.no_materials (ascii "e") (ascii "q") guided

given_up_row : status_of (given_up.1.sessions (ascii "s")) ≡ some (SupportSessionStatus.ended, 4)
unfolding machinery status_of end_session_without_guide validate_end_without_guide end_without_guide
given_up_row = refl

end_session_without_guide-Refines_example :
    Advances guided.requests guided.sessions given_up.1.requests given_up.1.sessions
end_session_without_guide-Refines_example =
    end_session_without_guide-Refines env guided grandmother (ascii "s") 3
      SupportSessionEndReason.no_materials (ascii "e") (ascii "q") guided guided-IsConsistent

abbrev saved_session : SupportSession
saved_session = record active_session {
  status = SupportSessionStatus.guide_saved;
  guide_id = some (ascii "g");
  guide_draft_id = some (ascii "d");
  revision = 5;
}

abbrev resolved_request : SupportRequest
resolved_request = record called_request { status = SupportRequestStatus.resolved; revision = 4 }

abbrev saved : Db
saved = record (db_of resolved_request) {
  sessions = write (λ id. none) saved_session.id (some saved_session);
}

saved-IsConsistent : IsConsistent saved.requests saved.sessions
unfolding accepted str_eq
saved-IsConsistent =
    alone-IsConsistent resolved_request saved_session
      (refl, refl, refl, refl, refl, inr (full_consent, refl, refl))

abbrev closed : Outcome SupportSession
closed = end_saved_session env saved daughter (ascii "s") 5 (ascii "k") (ascii "q") saved

closed_row : status_of (closed.1.sessions (ascii "s")) ≡ some (SupportSessionStatus.ended, 6)
unfolding machinery status_of end_saved_session validate_end_saved end_saved_guide
closed_row = refl

end_saved_session-Refines_example :
    Advances saved.requests saved.sessions closed.1.requests closed.1.sessions
end_saved_session-Refines_example =
    end_saved_session-Refines env saved daughter (ascii "s") 5 (ascii "k") (ascii "q") saved
      saved-IsConsistent

answered_reach : Reaches ringing answered.1
answered_reach =
    next ringing start
      (Attempt.accepts full_consent env ringing grandmother (ascii "s") 1 (ascii "k") (ascii "q"))

Reaches-IsConsistent_example : IsConsistent answered.1.requests answered.1.sessions
Reaches-IsConsistent_example =
    Reaches-IsConsistent ringing answered.1 answered_reach ringing-IsConsistent

ringing_at : ringing.sessions (ascii "s") ≡ some session
unfolding str_eq
ringing_at = refl

Reaches-Followed_example : Followed session (answered.1.sessions (ascii "s"))
Reaches-Followed_example =
    Reaches-Followed ringing answered.1 (ascii "s") session ringing-IsConsistent ringing_at
      answered_reach

answered_at : answered.1.sessions (ascii "s") ≡ some active_session
unfolding machinery
answered_at = refl

Reaches-consent_example :
    ((k : Consent) × (some full_consent ≡ some k) × (accepted k ≡ true))
    × ((r : SupportRequest) × (answered.1.requests (ascii "r") ≡ some r)
        × (r.status ≡ SupportRequestStatus.in_support))
Reaches-consent_example =
    Reaches-consent ringing answered.1 (ascii "s") active_session ringing-IsConsistent
      answered_reach answered_at refl

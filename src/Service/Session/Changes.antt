-- ===== src/Service/Session/Changes.antt =====
-- `Accept` and `Resolve` of server/internal/service/support_sessions.go as steps of the abstract
-- machine of requests and sessions.
use mite.Prelude.{
  ◌+◌, ◌≡◌, refl, ◌∙◌, sym, ap, inl, inr, true, some, arith, Bool-cases, Result-cases,
}
use mite.Domain.Enums.{GuideDecision, SupportSessionStatus, SupportRequestStatus}
use mite.Domain.Status.{session_can_transition, request_can_transition}
use mite.Domain.Value.{DomainId}
use mite.Domain.Support.{
  Time, Consent, SupportRequest, SupportSession, validate_accept, validate_resolve,
}
use mite.Domain.Support.Rules.{validate_accept_iff, validate_resolve_iff}
use mite.Repository.{Query}
use mite.Repository.Sessions.{
  activate_request, activate_session, resolve_request, resolve_session, touch_request,
  touch_session, resolved,
}
use mite.Service.Env.{Env}
use mite.Service.Session.Pair.{accept_change, resolve_change}
use mite.Service.Session.Rows.{IsConsented, Fits}
use mite.Service.Session.Rows.Consistent.{linked-IsPair}
use mite.Service.Session.Refine.{IsStep}

pub accept_change-IsStep : (env : Env) (consent : Consent) → IsStep (accept_change env consent)
unfolding accept_change activate_request activate_session request_can_transition
    session_can_transition
accept_change-IsStep env consent request session db c r s =
    elim (Result-cases (validate_accept session request consent)) [
      | inl (e, p) ↦ rw p tt
      | inr (_, p) ↦ elim (Bool-cases (env.refuses Query.activate_request)) [
        | inl f ↦ rw (p, f) tt
        | inr f ↦ elim (Bool-cases (env.refuses Query.activate_session)) [
          | inl g ↦ rw (p, f, r, g) tt
          | inr g ↦
              rw (p, f, r, g, s)
                (let facts = (validate_accept_iff session request consent).0 p in
                  let pair = linked-IsPair db.requests db.sessions request session c r s facts.2 in
                  inr (
                    inr (
                      request,
                      record (touch_request env.now request) {
                        status = SupportRequestStatus.in_support;
                      },
                      session,
                      record (touch_session env.now session) {
                        status = SupportSessionStatus.active;
                        consent = some consent;
                        consented_at = some env.now;
                        started_at = some env.now;
                      },
                      r,
                      s,
                      pair,
                      inr (rw facts.1 refl, refl, refl),
                      rw facts.0 refl,
                      refl,
                      refl,
                      refl,
                      refl,
                      (pair.0, pair.1, pair.2, pair.3, refl, inr (consent, refl, facts.3)),
                      refl,
                      refl,
                    )))
        ]
      ]
    ]

-- What a resolved session has become: ended, or waiting for its guide.
resolved-facts :
    (decision : GuideDecision) (now : Time) (r : SupportRequest) (s : SupportSession)
    → s.status ≡ SupportSessionStatus.active
    → IsConsented s
    → (session_can_transition s.status (resolved decision now s).status ≡ true)
      × ((resolved decision now s).revision ≡ s.revision + 1)
      × ((resolved decision now s).id ≡ s.id)
      × ((resolved decision now s).support_request_id ≡ s.support_request_id)
      × ((resolved decision now s).user_id ≡ s.user_id)
      × ((resolved decision now s).family_id ≡ s.family_id)
      × Fits (resolved decision now s).status SupportRequestStatus.resolved
      × IsConsented (resolved decision now s)
unfolding session_can_transition
resolved-facts GuideDecision.create now r s a (inl e) = ground arith
resolved-facts GuideDecision.create now r s a (inr e) =
    (rw a refl, refl, refl, refl, refl, refl, refl, inr e)
resolved-facts GuideDecision.skip now r s a (inl e) = ground arith
resolved-facts GuideDecision.skip now r s a (inr e) =
    (rw a refl, refl, refl, refl, refl, refl, refl, inr e)
resolved-facts (GuideDecision.other d) now r s a (inl e) = ground arith
resolved-facts (GuideDecision.other d) now r s a (inr e) =
    (rw a refl, refl, refl, refl, refl, refl, refl, inr e)

pub resolve_change-IsStep :
    (env : Env) (decision : GuideDecision) → IsStep (resolve_change env decision)
unfolding resolve_change resolve_request resolve_session request_can_transition
resolve_change-IsStep env decision request session db c r s =
    elim (Result-cases (validate_resolve session request decision)) [
      | inl (e, p) ↦ rw p tt
      | inr (_, p) ↦ elim (Bool-cases (env.refuses Query.resolve_request)) [
        | inl f ↦ rw (p, f) tt
        | inr f ↦ elim (Bool-cases (env.refuses Query.resolve_session)) [
          | inl g ↦ rw (p, f, r, g) tt
          | inr g ↦
              rw (p, f, r, g, s)
                (let facts = (validate_resolve_iff session request decision).0 p in
                  let pair = linked-IsPair db.requests db.sessions request session c r s facts.3 in
                  let new = resolved-facts decision env.now request session facts.1 pair.5 in
                  inr (
                    inr (
                      request,
                      record (touch_request env.now request) {
                        status = SupportRequestStatus.resolved;
                      },
                      session,
                      resolved decision env.now session,
                      r,
                      s,
                      pair,
                      inr (rw facts.2 refl, refl, refl),
                      new.0,
                      new.1,
                      new.2,
                      refl,
                      refl,
                      (
                        new.3 ∙ pair.0,
                        pair.1 ∙ ap (λ (j : DomainId). some j) (sym new.2),
                        new.4 ∙ pair.2,
                        new.5 ∙ pair.3,
                        new.6,
                        new.7,
                      ),
                      refl,
                      refl,
                    )))
        ]
      ]
    ]

-- ===== src/Service/Session/Effects.antt =====
-- What `Accept` and `Resolve` of server/internal/service/support_sessions.go write.
use mite.Prelude.{refl, inl, inr, arith, Bool-cases, Option-cases, Result-cases}
use mite.Domain.Enums.{GuideDecision}
use mite.Domain.Support.{Consent, validate_accept, validate_resolve}
use mite.Repository.{Query}
use mite.Repository.Sessions.{activate_request, activate_session, resolve_request, resolve_session}
use mite.Service.Env.{Env}
use mite.Service.Session.Common.{is_persistent_business_error}
use mite.Service.Session.Pair.{accept_change, resolve_change}
use mite.Service.Session.Change.{IsChange}

pub accept_change-IsChange : (env : Env) (consent : Consent) → IsChange (accept_change env consent)
unfolding accept_change activate_request activate_session is_persistent_business_error
accept_change-IsChange env consent request locked db =
    elim (Result-cases (validate_accept locked request consent)) [
      | inl (e, p) ↦ rw p (refl, λ x _ _. refl)
      | inr (_, p) ↦ elim (Bool-cases (env.refuses Query.activate_request)) [
        | inl f ↦ rw (p, f) (refl, λ x _ _. refl)
        | inr f ↦ elim (Option-cases (db.requests request.id)) [
          | inl n ↦ rw (p, f, n) (refl, λ x _ _. refl)
          | inr (r, n) ↦ elim (Bool-cases (env.refuses Query.activate_session)) [
            | inl g ↦ rw (p, f, n, g) (refl, λ x e c. ground arith)
            | inr g ↦ elim (Option-cases (db.sessions locked.id)) [
              | inl m ↦ rw (p, f, n, g, m) (refl, λ x e c. ground arith)
              | inr (s, m) ↦ rw (p, f, n, g, m) (refl, λ x e c. cc)
            ]
          ]
        ]
      ]
    ]

pub resolve_change-IsChange :
    (env : Env) (decision : GuideDecision) → IsChange (resolve_change env decision)
unfolding resolve_change resolve_request resolve_session is_persistent_business_error
resolve_change-IsChange env decision request locked db =
    elim (Result-cases (validate_resolve locked request decision)) [
      | inl (e, p) ↦ rw p (refl, λ x _ _. refl)
      | inr (_, p) ↦ elim (Bool-cases (env.refuses Query.resolve_request)) [
        | inl f ↦ rw (p, f) (refl, λ x _ _. refl)
        | inr f ↦ elim (Option-cases (db.requests request.id)) [
          | inl n ↦ rw (p, f, n) (refl, λ x _ _. refl)
          | inr (r, n) ↦ elim (Bool-cases (env.refuses Query.resolve_session)) [
            | inl g ↦ rw (p, f, n, g) (refl, λ x e c. ground arith)
            | inr g ↦ elim (Option-cases (db.sessions locked.id)) [
              | inl m ↦ rw (p, f, n, g, m) (refl, λ x e c. ground arith)
              | inr (s, m) ↦ rw (p, f, n, g, m) (refl, λ x e c. cc)
            ]
          ]
        ]
      ]
    ]

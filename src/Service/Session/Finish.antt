-- ===== src/Service/Session/Finish.antt =====
-- `EndWithoutGuide` of server/internal/service/support_sessions.go and `End` of
-- end_support_session.go as steps of the abstract machine.
use mathlib.Core.Path.{fun_ext}
use mite.Prelude.{
  ◌+◌, ◌≡◌, refl, ◌∙◌, sym, ap, ◌⊎◌, inl, inr, true, Option, some, arith, Bool-cases, write, ◌==◌,
  eq_of_==,
}
use mite.Text.{eq_str}
use mite.Domain.Enums.{SupportSessionStatus}
use mite.Domain.Status.{session_can_transition}
use mite.Domain.Value.{DomainId}
use mite.Domain.Support.{SupportRequest, SupportSession}
use mite.Service.Session.Rows.{
  Requests, Sessions, IsConsistent, Advances, IsPair, IsConsented, Fits,
}

write_same :
    {V : Type 0} (t : DomainId → Option V) (k : DomainId) (v : V)
    → t k ≡ some v
    → t ≡ write t k (some v)
write_same t k v e =
    fun_ext
      λ j. elim (Bool-cases (k == j)) [ inl p ↦ rw (p, sym (eq_of_== k j p)) e | inr p ↦ rw p refl ]

-- The statuses in which a guide is made, reviewed or saved.
abbrev pub IsAfterCall : SupportSession → Type 0
IsAfterCall s =
    (s.status ≡ SupportSessionStatus.generating_guide)
    ⊎ (s.status ≡ SupportSessionStatus.reviewing_guide)
    ⊎ (s.status ≡ SupportSessionStatus.guide_saved)

-- A session after its call ends, and its request stays resolved.
pub ended-Advances :
    (requests : Requests) (sessions : Sessions) (s s' : SupportSession)
    → IsConsistent requests sessions
    → sessions s.id ≡ some s
    → IsAfterCall s
    → s'.status ≡ SupportSessionStatus.ended
    → s'.revision ≡ s.revision + 1
    → s'.id ≡ s.id
    → s'.support_request_id ≡ s.support_request_id
    → s'.user_id ≡ s.user_id
    → s'.family_id ≡ s.family_id
    → s'.consent ≡ s.consent
    → Advances requests sessions requests (write sessions s.id (some s'))
unfolding session_can_transition
ended-Advances requests sessions s s' c held after e rev id srid user family consent =
    paired (c.0 s.id s held)
  where
    consented : IsConsented s → IsConsented s'
    consented (inl r) = ground arith
    consented (inr (k, p, q)) = inr (k, consent ∙ p, q)

    settled : (y : SupportRequest) → Fits s.status y.status → Fits s'.status y.status
    settled y f = ground arith

    may : session_can_transition s.status s'.status ≡ true
    may = ground arith

    paired :
        (s.id ≡ s.id) × (x : SupportRequest) × (requests s.support_request_id ≡ some x) × IsPair x s
        → Advances requests sessions requests (write sessions s.id (some s'))
    paired (_, y, at, pair) =
        let there = ap requests (sym pair.0) ∙ at in
        inr (
          inr (
            y,
            y,
            s,
            s',
            there,
            held,
            pair,
            inl refl,
            may,
            rev,
            id,
            refl,
            refl,
            (
              srid ∙ pair.0,
              pair.1 ∙ ap (λ (j : DomainId). some j) (sym id),
              user ∙ pair.2,
              family ∙ pair.3,
              settled y pair.4,
              consented pair.5,
            ),
            write_same requests y.id y there,
            refl,
          ))

-- ===== src/Service/Session/Rows/Consistent.antt =====
-- The tables of requests and sessions stay consistent (server/internal/service/support_sessions.go).
use mathlib.Core.Path.{subst}
use mite.Prelude.{
  ◌≡◌, ◌≢◌, refl, ◌∙◌, sym, ap, ◌⊎◌, inl, inr, some, write, write_self, write_ne, write-cases,
}
use mite.Text.{eq_str}
use mite.Domain.Value.{DomainId}
use mite.Domain.Support.{SupportRequest, SupportSession}
use mite.Service.Session.Rows.{Requests, Sessions, IsPair, IsConsistent, Advances}

-- The tables stay consistent when a pair is written over a request and a session that belong to
-- each other, or to nothing.
pub write-IsConsistent :
    (requests : Requests) (sessions : Sessions) (r : SupportRequest) (s : SupportSession)
    → IsConsistent requests sessions
    → IsPair r s
    → ((id : DomainId) (x : SupportSession)
        → sessions id ≡ some x
        → x.support_request_id ≡ r.id
        → id ≡ s.id)
    → ((id : DomainId) (x : SupportRequest)
        → requests id ≡ some x
        → x.support_session_id ≡ some s.id
        → id ≡ r.id)
    → IsConsistent (write requests r.id (some r)) (write sessions s.id (some s))
write-IsConsistent requests sessions r s c pair only_s only_r = (
  λ id x h. session_row id x (write-cases sessions s.id id s x h),
  λ id x h. request_row id x (write-cases requests r.id id r x h),
)
  where
    session_row :
        (id : DomainId) (x : SupportSession)
        → ((id ≡ s.id) × (x ≡ s)) ⊎ ((id ≢ s.id) × (sessions id ≡ some x))
        → (x.id ≡ id)
          × (y : SupportRequest) × (write requests r.id (some r) x.support_request_id ≡ some y)
          × IsPair y x
    session_row id x (inl (e, q)) =
        rw (q, e) (refl, r, rw pair.0 (write_self requests r.id (some r)), pair)
    session_row id x (inr (n, q)) =
        let old = c.0 id x q in
        (
          old.0,
          old.1,
          write_ne requests r.id x.support_request_id (some r) (λ e. n (only_s id x q (sym e)))
              ∙ old.2,
          old.3,
        )

    request_row :
        (id : DomainId) (x : SupportRequest)
        → ((id ≡ r.id) × (x ≡ r)) ⊎ ((id ≢ r.id) × (requests id ≡ some x))
        → (x.id ≡ id)
          × ((sid : DomainId)
              → x.support_session_id ≡ some sid
              → (y : SupportSession) × (write sessions s.id (some s) sid ≡ some y)
                × (y.support_request_id ≡ id))
    request_row id x (inl (e, q)) =
        rw (q, e)
          (
            refl,
            λ sid k. (
              s,
              ap (λ j. write sessions s.id (some s) j) (same sid k)
                  ∙ write_self sessions s.id (some s),
              pair.0,
            ),
          )
      where
        same : (sid : DomainId) → r.support_session_id ≡ some sid → sid ≡ s.id
        same sid k = cc
    request_row id x (inr (n, q)) =
        let old = c.1 id x q in
        (
          old.0,
          λ sid k.
              let target = old.1 sid k in
              (
                target.0,
                write_ne sessions s.id sid (some s)
                      (λ e. n (only_r id x q (k ∙ ap (λ (j : DomainId). some j) (sym e))))
                    ∙ target.1,
                target.2,
              ),
        )

only_session :
    (requests : Requests) (sessions : Sessions) (r : SupportRequest)
    → IsConsistent requests sessions
    → requests r.id ≡ some r
    → (id : DomainId) (x : SupportSession) → sessions id ≡ some x
    → x.support_request_id ≡ r.id
    → r.support_session_id ≡ some id
only_session requests sessions r c at id x h e =
    let row = c.0 id x h in
    linked row.1 (sym (row.2) ∙ ap requests e ∙ at) (row.3.1 ∙ ap (λ (j : DomainId). some j) row.0)
  where
    linked :
        (y : SupportRequest)
        → (some y ≡ some r)
        → y.support_session_id ≡ some id
        → r.support_session_id ≡ some id
    linked y e q = cc

-- Every step of the machine keeps the tables consistent.
pub Advances-IsConsistent :
    (requests requests' : Requests) (sessions sessions' : Sessions)
    → IsConsistent requests sessions
    → Advances requests sessions requests' sessions'
    → IsConsistent requests' sessions'
Advances-IsConsistent requests requests' sessions sessions' c (inl (p, q)) = rw (p, q) c
Advances-IsConsistent requests requests' sessions sessions' c
      (inr (inl (r, r', s, at, free, alone, _, _, same, _, _, _, pair, p, q))) =
    rw (p, q, sym same)
      (write-IsConsistent requests sessions r' s c pair
        (λ id x h e. taken id (only_session requests sessions r c at id x h (e ∙ same)))
        (λ id x h e. occupied id ((c.1 id x h).1 s.id e)))
  where
    taken : (id : DomainId) → r.support_session_id ≡ some id → id ≡ s.id
    taken id e = cc

    occupied :
        (id : DomainId)
        → (y : SupportSession) × (sessions s.id ≡ some y) × (y.support_request_id ≡ id)
        → id ≡ r'.id
    occupied id (y, e, l) = cc
Advances-IsConsistent requests requests' sessions sessions' c
      (inr (inr (r, r', s, s', at, held, old, _, _, _, same_s, same_r, _, pair, p, q))) =
    rw (p, q, sym same_r, sym same_s)
      (write-IsConsistent requests sessions r' s' c pair
        (λ id x h e. named id (only_session requests sessions r c at id x h (e ∙ same_r)))
        (λ id x h e. own id ((c.1 id x h).1 s.id (e ∙ ap (λ (j : DomainId). some j) same_s))))
  where
    named : (id : DomainId) → r.support_session_id ≡ some id → id ≡ s'.id
    named id e = linked (sym old.1 ∙ e)
      where
        linked : some s.id ≡ some id → id ≡ s'.id
        linked k = cc

    own :
        (id : DomainId)
        → (y : SupportSession) × (sessions s.id ≡ some y) × (y.support_request_id ≡ id)
        → id ≡ r'.id
    own id (y, e, l) = sym l ∙ row (sym held ∙ e) ∙ old.0 ∙ sym same_r
      where
        row : some s ≡ some y → y.support_request_id ≡ s.support_request_id
        row k = cc

-- In consistent tables a request and the session that it names are a pair.
pub linked-IsPair :
    (requests : Requests) (sessions : Sessions) (r : SupportRequest) (s : SupportSession)
    → IsConsistent requests sessions
    → requests r.id ≡ some r
    → sessions s.id ≡ some s
    → r.support_session_id ≡ some s.id
    → IsPair r s
linked-IsPair requests sessions r s c at held e =
    paired ((c.1 r.id r at).1 s.id e) (c.0 s.id s held)
  where
    paired :
        (y : SupportSession) × (sessions s.id ≡ some y) × (y.support_request_id ≡ r.id)
        → (s.id ≡ s.id)
          × (x : SupportRequest) × (requests s.support_request_id ≡ some x)
          × IsPair x s
        → IsPair r s
    paired (y, h, l) (_, x, g, pair) =
        subst (λ z. IsPair z s) (same (sym g ∙ ap requests (own (sym held ∙ h)) ∙ at)) pair
      where
        own : some s ≡ some y → s.support_request_id ≡ r.id
        own k = cc

        same : some x ≡ some r → x ≡ r
        same k = cc

-- ===== src/Service/Request/Orderly.antt =====
-- Tables of requests and sessions in good order: the use cases of
-- server/internal/service/artifact_support.go and support_sessions.go keep them so.
use mathlib.Core.Path.{subst}
use mite.Prelude.{
  ◌≡◌, sym, ap, ◌∙◌, inl, inr, true, some, List, write, write-cases, ◌||◌, ◌==◌, arith,
}
use mite.Text.{eq_str}
use mite.Domain.Enums.{SupportRequestStatus, eq_support_request_status}
use mite.Domain.Status.{request_can_transition}
use mite.Domain.Value.{DomainId}
use mite.Domain.Guide.{contains}
use mite.Domain.Support.{SupportRequest}
use mite.Repository.{Db}
use mite.Repository.Requests.{is_active}
use mite.Service.Session.Rows.{Requests, IsConsistent, Advances, RequestMoves}
use mite.Service.Session.Rows.Consistent.{Advances-IsConsistent}
use mite.Service.Request.Rows.{
  Changes, IsListed, OneActive, write-OneActive, Changes-OneActive, Changes-IsConsistent,
}

-- Requests and sessions belong together, the ids of the requests are listed, and no user has two
-- active requests.
abbrev pub IsOrderly : List DomainId → Db → Type 0
IsOrderly ids db =
    IsConsistent db.requests db.sessions × IsListed ids db.requests × OneActive db.requests

write-IsListed :
    (ids : List DomainId) (requests : Requests) (id : DomainId) (r : SupportRequest)
    → IsListed ids requests
    → contains ids id ≡ true
    → IsListed ids (write requests id (some r))
write-IsListed ids requests id r listed named j x at = elim (write-cases requests id j r x at) [
  | inl (e, q) ↦ ap (contains ids) e ∙ named
  | inr (n, q) ↦ listed j x q
]

Changes-IsListed :
    (ids : List DomainId) (db db' : Db)
    → IsListed ids db.requests
    → Changes ids db db'
    → IsListed ids db'.requests
Changes-IsListed ids db db' listed (_, inl same) = subst (IsListed ids) (sym same) listed
Changes-IsListed ids db db' listed (_, inr (inl (r, _, named, _, _, _, same))) =
    subst (IsListed ids) (sym same) (write-IsListed ids db.requests r.id r listed named)
Changes-IsListed ids db db' listed (_, inr (inr (r, r', at, _, _, _, _, _, _, _, same))) =
    subst (IsListed ids) (sym same)
      (write-IsListed ids db.requests r.id r' listed (listed r.id r at))

pub Changes-IsOrderly :
    (ids : List DomainId) (db db' : Db) → IsOrderly ids db → Changes ids db db' → IsOrderly ids db'
Changes-IsOrderly ids db db' (c, listed, one) h = (
  Changes-IsConsistent ids db db' c h,
  Changes-IsListed ids db db' listed h,
  Changes-OneActive ids db db' listed one h,
)

-- A request that is active after a transition was active before it.
active_before :
    (s t : SupportRequestStatus)
    → request_can_transition s t ≡ true
    → (t == SupportRequestStatus.pending || t == SupportRequestStatus.in_support) ≡ true
    → (s == SupportRequestStatus.pending || s == SupportRequestStatus.in_support) ≡ true
unfolding request_can_transition
active_before s SupportRequestStatus.pending h a = ground arith
active_before s SupportRequestStatus.in_support h a = ground arith
active_before s SupportRequestStatus.resolved h a = cc
active_before s SupportRequestStatus.cancelled h a = cc
active_before s (SupportRequestStatus.other x) h a = cc

moved_active :
    (r r' : SupportRequest) → RequestMoves r r' → is_active r' ≡ true → is_active r ≡ true
moved_active r r' (inl e) a = ap is_active (sym e) ∙ a
moved_active r r' (inr (may, _, _)) a = active_before r.status r'.status may a

-- The row of a request that stays with its user, and is active only if it was.
replaced-OneActive :
    (requests : Requests) (r r' : SupportRequest)
    → OneActive requests
    → requests r.id ≡ some r
    → r'.user_id ≡ r.user_id
    → (is_active r' ≡ true → is_active r ≡ true)
    → OneActive (write requests r.id (some r'))
replaced-OneActive requests r r' one at owner before =
    write-OneActive requests r' r.id one λ j s at_j active_r active_s e.
      one r.id j r s at at_j (before active_r) active_s (sym owner ∙ e)

pub Advances-IsOrderly :
    (ids : List DomainId) (db db' : Db)
    → IsOrderly ids db
    → Advances db.requests db.sessions db'.requests db'.sessions
    → IsOrderly ids db'
Advances-IsOrderly ids db db' (c, listed, one) h = (
  Advances-IsConsistent db.requests db'.requests db.sessions db'.sessions c h,
  (still h).0,
  (still h).1,
)
  where
    still :
        Advances db.requests db.sessions db'.requests db'.sessions
        → IsListed ids db'.requests × OneActive db'.requests
    still (inl (same, _)) = rw same (listed, one)
    still (inr (inl (r, r', _, at, _, _, _, _, _, owner, _, status, _, same, _))) = rw same (
      write-IsListed ids db.requests r.id r' listed (listed r.id r at),
      replaced-OneActive db.requests r r' one at owner (λ a.
          subst
            (λ (x : SupportRequestStatus).
              (x == SupportRequestStatus.pending || x == SupportRequestStatus.in_support) ≡ true)
            status a),
    )
    still (inr (inr (r, r', _, _, at, _, _, moves, _, _, _, _, owner, _, same, _))) = rw same (
      write-IsListed ids db.requests r.id r' listed (listed r.id r at),
      replaced-OneActive db.requests r r' one at owner (moved_active r r' moves),
    )

-- ===== src/Service/Request/Rows.antt =====
-- The table of requests under the use cases of server/internal/service/artifact_support.go: what a
-- use case may do to it, and what holds of it at all times.
use mathlib.Core.Path.{subst}
use mite.Prelude.{
  ◌+◌, ◌≡◌, ◌≢◌, refl, sym, ap, ◌∙◌, ◌⊎◌, inl, inr, Bool, true, false, ◌||◌, none, some, List, [],
  ◌∷◌, Bool-cases, ◌==◌, eq_of_==, ==_refl, write, write-cases, write_ne, arith,
}
use mite.Text.{eq_str}
use mite.Domain.Enums.{SupportRequestStatus, eq_support_request_status}
use mite.Domain.Value.{DomainId}
use mite.Domain.Guide.{contains}
use mite.Domain.Support.{SupportRequest, SupportSession}
use mite.Repository.{Db}
use mite.Repository.Requests.{is_active, active_of, exists_row}
use mite.Service.Session.Rows.{Requests, Sessions, IsConsistent, IsPair}

-- A pending request comes in, whose user has no active one.
abbrev pub Added : List DomainId → Requests → Requests → Type 0
Added ids requests requests' =
    (r : SupportRequest) × (requests r.id ≡ none)
    × (contains ids r.id ≡ true)
    × (r.support_session_id ≡ none)
    × (r.status ≡ SupportRequestStatus.pending)
    × (exists_row (λ j. active_of r.user_id (requests j)) ids ≡ false)
    × (requests' ≡ write requests r.id (some r))

-- A pending request without a session is acknowledged, or cancelled.
abbrev pub Revised : Requests → Requests → Type 0
Revised requests requests' =
    (r : SupportRequest) × (r' : SupportRequest) × (requests r.id ≡ some r)
    × (r.support_session_id ≡ none)
    × (r.status ≡ SupportRequestStatus.pending)
    × (r'.id ≡ r.id)
    × (r'.support_session_id ≡ none)
    × (r'.user_id ≡ r.user_id)
    × (r'.revision ≡ r.revision + 1)
    × ((r'.status ≡ SupportRequestStatus.pending) ⊎ (r'.status ≡ SupportRequestStatus.cancelled))
    × (requests' ≡ write requests r.id (some r'))

-- What a use case does to the two tables.
abbrev pub Changes : List DomainId → Db → Db → Type 0
Changes ids db db' =
    (db'.sessions ≡ db.sessions)
    × ((db'.requests ≡ db.requests)
        ⊎ Added ids db.requests db'.requests
        ⊎ Revised db.requests db'.requests)

-- The keys of the rows are among those that an `EXISTS` runs over.
abbrev pub IsListed : List DomainId → Requests → Type 0
IsListed ids requests =
    (id : DomainId) (r : SupportRequest) → requests id ≡ some r → contains ids id ≡ true

-- No user has two active requests.
abbrev pub OneActive : Requests → Type 0
OneActive requests =
    (i : DomainId) (j : DomainId) (r : SupportRequest) (s : SupportRequest)
    → requests i ≡ some r
    → requests j ≡ some s
    → is_active r ≡ true
    → is_active s ≡ true
    → r.user_id ≡ s.user_id
    → i ≡ j

exists_row-false :
    (p : DomainId → Bool) (ids : List DomainId) (id : DomainId)
    → exists_row p ids ≡ false
    → contains ids id ≡ true
    → p id ≡ false
unfolding exists_row contains
exists_row-false p [] id h c = cc
exists_row-false p (x ∷ xs) id h c = elim (Bool-cases (x == id)) [
  | inl q ↦ subst (λ y. p y ≡ false) (eq_of_== x id q) (ground arith)
  | inr q ↦ exists_row-false p xs id (ground arith) (ground (arith, q, c))
]

-- A user with no active request in the listed rows has none.
none_active :
    (ids : List DomainId) (requests : Requests) (user_id : DomainId) (j : DomainId)
    (s : SupportRequest)
    → IsListed ids requests
    → exists_row (λ j. active_of user_id (requests j)) ids ≡ false
    → requests j ≡ some s
    → is_active s ≡ true
    → user_id ≢ s.user_id
none_active ids requests user_id j s listed h at active e =
    let q = exists_row-false (λ j. active_of user_id (requests j)) ids j h (listed j s at) in
    let k : active_of user_id (some s) ≡ false = ap (active_of user_id) (sym at) ∙ q in
    let own = ap (λ (u : DomainId). s.user_id == u) e ∙ ==_refl s.user_id in
    ground (arith, own, k, active)

-- A row that comes in, or is revised, keeps its user's active requests at one.
pub write-OneActive :
    (requests : Requests) (r' : SupportRequest) (id : DomainId)
    → OneActive requests
    → ((j : DomainId) (s : SupportRequest)
        → requests j ≡ some s
        → is_active r' ≡ true
        → is_active s ≡ true
        → r'.user_id ≡ s.user_id
        → id ≡ j)
    → OneActive (write requests id (some r'))
write-OneActive requests r' id one alone i j r s at_i at_j active_r active_s same =
    elim (write-cases requests id i r' r at_i) [
      | inl (ei, er) ↦ elim (write-cases requests id j r' s at_j) [
        | inl (ej, es) ↦ ei ∙ sym ej
        | inr (nj, oj) ↦
            ei
            ∙ alone j s oj (ap is_active (sym er) ∙ active_r) active_s
                (ap (λ (x : SupportRequest). x.user_id) (sym er) ∙ same)
      ]
      | inr (ni, oi) ↦ elim (write-cases requests id j r' s at_j) [
        | inl (ej, es) ↦ sym (
            ej
            ∙ alone i r oi (ap is_active (sym es) ∙ active_s) active_r
                (ap (λ (x : SupportRequest). x.user_id) (sym es) ∙ sym same))
        | inr (nj, oj) ↦ one i j r s oi oj active_r active_s same
      ]
    ]

pub pending_active :
    (r : SupportRequest) → r.status ≡ SupportRequestStatus.pending → is_active r ≡ true
pending_active r h =
    ap
      (λ (x : SupportRequestStatus).
        x == SupportRequestStatus.pending || x == SupportRequestStatus.in_support)
      h

pub Changes-OneActive :
    (ids : List DomainId) (db db' : Db)
    → IsListed ids db.requests
    → OneActive db.requests
    → Changes ids db db'
    → OneActive db'.requests
Changes-OneActive ids db db' listed one (_, inl same) = subst OneActive (sym same) one
Changes-OneActive ids db db' listed one
      (_, inr (inl (r, free, named, alone, pending, quiet, same))) =
    subst OneActive (sym same) (
      write-OneActive db.requests r r.id one (λ j s at active_r active_s e.
        absurd (none_active ids db.requests r.user_id j s listed quiet at active_s e)))
Changes-OneActive ids db db' listed one
      (_, inr (inr (r, r', at, free, pending, _, _, owner, _, status, same))) =
    subst OneActive (sym same) (
      write-OneActive db.requests r' r.id one (λ j s at_j active_r active_s e.
        one r.id j r s at at_j (pending_active r pending) active_s (sym owner ∙ e)))

-- A row without a session takes the place of one, or of none.
write-IsConsistent_alone :
    (requests : Requests) (sessions : Sessions) (id : DomainId) (r' : SupportRequest)
    → IsConsistent requests sessions
    → r'.id ≡ id
    → r'.support_session_id ≡ none
    → ((r : SupportRequest) → requests id ≡ some r → r.support_session_id ≡ none)
    → IsConsistent (write requests id (some r')) sessions
write-IsConsistent_alone requests sessions id r' c filed free old = (session_row, request_row)
  where
    session_row :
        (sid : DomainId) (s : SupportSession)
        → sessions sid ≡ some s
        → (s.id ≡ sid)
          × (r : SupportRequest) × (write requests id (some r') s.support_request_id ≡ some r)
          × IsPair r s
    session_row sid s h =
        let row = c.0 sid s h in
        (
          row.0,
          row.1,
          write_ne requests id s.support_request_id (some r')
                (λ e. let lone = old row.1 (ap requests e ∙ row.2) in let linked = row.3.1 in cc)
              ∙ row.2,
          row.3,
        )

    request_row :
        (j : DomainId) (r : SupportRequest)
        → write requests id (some r') j ≡ some r
        → (r.id ≡ j)
          × ((sid : DomainId)
              → r.support_session_id ≡ some sid
              → (s : SupportSession) × (sessions sid ≡ some s) × (s.support_request_id ≡ j))
    request_row j r h = elim (write-cases requests id j r' r h) [
      | inl (e, q) ↦ rw (q, e) (filed, λ sid k. absurd (let l = sym free ∙ k in cc))
      | inr (n, q) ↦ c.1 j r q
    ]

pub Changes-IsConsistent :
    (ids : List DomainId) (db db' : Db)
    → IsConsistent db.requests db.sessions
    → Changes ids db db'
    → IsConsistent db'.requests db'.sessions
Changes-IsConsistent ids db db' c (sessions, inl same) = rw (sessions, same) c
Changes-IsConsistent ids db db' c (sessions, inr (inl (r, none_yet, _, free, _, _, same))) =
    rw (sessions, same)
      (write-IsConsistent_alone db.requests db.sessions r.id r c refl free
        (λ x at. absurd (let k = sym none_yet ∙ at in cc)))
Changes-IsConsistent ids db db' c
      (sessions, inr (inr (r, r', at, free, _, filed, lone, _, _, _, same))) =
    rw (sessions, same)
      (write-IsConsistent_alone db.requests db.sessions r.id r' c filed lone
        (λ x h. let k = sym at ∙ h in cc))

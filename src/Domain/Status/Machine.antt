-- ===== src/Domain/Status/Machine.antt =====
-- Histories of the transition tables of server/internal/domain/status.go.
use mite.Prelude.{ℕ, ◌+◌, ◌≤◌, ◌≡◌, true, arith, List, [], ◌∷◌, length}
use mite.Domain.Enums.{SupportSessionStatus}
use mite.Domain.Status.{session_can_transition}

-- Each status of a list follows from the one before it by an allowed transition.
abbrev pub IsHistory : SupportSessionStatus → List SupportSessionStatus → Type 0
IsHistory s [] = Unit
IsHistory s (t ∷ ts) = (session_can_transition s t ≡ true) × IsHistory t ts

abbrev pub last_status : SupportSessionStatus → List SupportSessionStatus → SupportSessionStatus
last_status s [] = s
last_status s (t ∷ ts) = last_status t ts

-- How many transitions are left at most.
abbrev rank : SupportSessionStatus → ℕ
rank SupportSessionStatus.ringing = 4
rank SupportSessionStatus.active = 3
rank SupportSessionStatus.generating_guide = 2
rank SupportSessionStatus.reviewing_guide = 1
rank SupportSessionStatus.guide_saved = 1
rank _ = 0

rank_falls : (s t : SupportSessionStatus) → session_can_transition s t ≡ true → rank t + 1 ≤ rank s
unfolding session_can_transition
rank_falls s t h = ground arith

length-le-rank :
    (s : SupportSessionStatus) (ts : List SupportSessionStatus)
    → IsHistory s ts
    → length ts ≤ rank s
length-le-rank s [] h = omega arith
length-le-rank s (t ∷ ts) h = omega (arith, rank_falls s t h.0, length-le-rank t ts h.1)

-- The statuses that a call started by `Call` can have.
abbrev pub IsCurrent : SupportSessionStatus → Type 0
IsCurrent SupportSessionStatus.guide_saved = ⊥
IsCurrent (SupportSessionStatus.other s) = ⊥
IsCurrent _ = Unit

step-IsCurrent : (s t : SupportSessionStatus) → session_can_transition s t ≡ true → IsCurrent t
unfolding session_can_transition
step-IsCurrent s SupportSessionStatus.guide_saved h = ground arith
step-IsCurrent s (SupportSessionStatus.other t) h = ground arith
step-IsCurrent s _ h = tt

last-IsCurrent :
    (s : SupportSessionStatus) (ts : List SupportSessionStatus)
    → IsCurrent s
    → IsHistory s ts
    → IsCurrent (last_status s ts)
last-IsCurrent s [] c h = c
last-IsCurrent s (t ∷ ts) c h = last-IsCurrent t ts (step-IsCurrent s t h.0) h.1

-- A support session that starts ringing makes at most four transitions, and its last status is
-- one of the five that are not `GUIDE_SAVED`.
pub ringing_history :
    (ts : List SupportSessionStatus)
    → IsHistory SupportSessionStatus.ringing ts
    → (length ts ≤ 4) × IsCurrent (last_status SupportSessionStatus.ringing ts)
ringing_history ts h = (
  length-le-rank SupportSessionStatus.ringing ts h,
  last-IsCurrent SupportSessionStatus.ringing ts tt h,
)

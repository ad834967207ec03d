-- ===== src/Domain/Value/Laws.antt =====
-- Revisions of server/internal/domain/revision.go.
use mite.Prelude.{ℕ, ◌+◌, ◌≤◌, ◌≡◌, ◌⊎◌, arith, ok}
use mite.Domain.Errors.{fail, internal_error}
use mite.Domain.Value.{check_expected_revision, next_revision, max_int64}

-- A write that expects a revision gets past it only if it is the current one, and then the next
-- revision is one more and still an int64, or there is none because the last one is reached.
pub next_revision-check :
    (current expected : ℕ)
    → current ≤ max_int64
    → check_expected_revision current expected ≡ ok tt
    → (expected ≡ current)
      × (((next_revision current ≡ ok (expected + 1)) × (expected + 1 ≤ max_int64))
          ⊎ ((next_revision current ≡ fail internal_error) × (current ≡ max_int64)))
unfolding check_expected_revision next_revision
next_revision-check current expected bound h = ground arith

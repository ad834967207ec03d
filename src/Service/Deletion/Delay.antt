-- ===== src/Service/Deletion/Delay.antt =====
-- How long a deletion waits (server/internal/service/artifact_cleanup.go).
use mite.Prelude.{ℕ, ◌+◌, ◌*◌, ◌≤◌, ◌≡◌, arith, if◌then◌else◌, ltb, zero, suc}
use mite.Service.Deletion.{deletion_retry_delay}

-- The delay is between one second and 2048 seconds, so that the bound of an hour is never reached;
-- it doubles with each attempt from the first to the twelfth, and stays the same from then on.
pub deletion_retry_delay-doubles :
    (attempt : ℕ)
    → (1000000000 ≤ deletion_retry_delay attempt)
      × (deletion_retry_delay attempt ≤ 2048000000000)
      × (deletion_retry_delay (attempt + 2) ≡ (
          if ltb attempt 11
          then 2 * deletion_retry_delay (attempt + 1)
          else deletion_retry_delay (attempt + 1)))
unfolding deletion_retry_delay
deletion_retry_delay-doubles zero = ground arith
deletion_retry_delay-doubles (suc zero) = ground arith
deletion_retry_delay-doubles (suc (suc zero)) = ground arith
deletion_retry_delay-doubles (suc (suc (suc zero))) = ground arith
deletion_retry_delay-doubles (suc (suc (suc (suc zero)))) = ground arith
deletion_retry_delay-doubles (suc (suc (suc (suc (suc zero))))) = ground arith
deletion_retry_delay-doubles (suc (suc (suc (suc (suc (suc zero)))))) = ground arith
deletion_retry_delay-doubles (suc (suc (suc (suc (suc (suc (suc zero))))))) = ground arith
deletion_retry_delay-doubles (suc (suc (suc (suc (suc (suc (suc (suc zero)))))))) = ground arith
deletion_retry_delay-doubles (suc (suc (suc (suc (suc (suc (suc (suc (suc zero))))))))) =
    ground arith
deletion_retry_delay-doubles (suc (suc (suc (suc (suc (suc (suc (suc (suc (suc zero)))))))))) =
    ground arith
deletion_retry_delay-doubles (suc (suc (suc (suc (suc (suc (suc (suc (suc (suc (suc n))))))))))) =
    ground arith

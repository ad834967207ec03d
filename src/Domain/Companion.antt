-- ===== src/Domain/Companion.antt =====
-- server/internal/domain/companion.go: whether a user is there.
use mite.Prelude.{ℕ, Bool, false, ◌||◌, not, Option, some, ltb, fail_if, ◌>>=◌}
use mite.Domain.Errors.{Res, domain, validation_error}
use mite.Domain.Enums.{PresenceStatus}
use mite.Domain.Value.{DomainId, new_id}
use mite.Domain.Support.{Time}

pub record UserPresence : Type 0 where
  pub user_id : DomainId
  pub status : PresenceStatus
  pub connected_since : Option Time
  pub last_seen_at : Option Time
  pub updated_at : Option Time
  pub connection_epoch : ℕ
  pub revision : ℕ

-- The three times are there, in this order.
abbrev pub in_order : Option Time → Option Time → Option Time → Bool
in_order (some since) (some seen) (some updated) = not (ltb seen since || ltb updated seen)
in_order _ _ _ = false

-- `ValidateStored`.
unfoldable pub validate_stored : UserPresence → Res (Unit {0})
validate_stored p = do
  _ ← new_id p.user_id
  fail_if
      (not (in_order p.connected_since p.last_seen_at p.updated_at)
        || ltb p.connection_epoch 1
        || ltb p.revision 1)
      (domain validation_error)

-- ===== src/Domain/User.antt =====
-- server/internal/domain/user.go: who acts, and who may act for a pair of a user and a family.
pub mod Authorize
use mite.Prelude.{Bool, true, false, ◌||◌, not, List, [], ◌∷◌, if◌then◌else◌, ◌==◌, ok, ◌>>=◌, ◌>>◌}
use mite.Text.{Str, eq_str}
use mite.Domain.Errors.{Res, fail, unauthenticated, forbidden}
use mite.Domain.Enums.{Role, eq_role}
use mite.Domain.Value.{DomainId, new_id}

unfoldable pub role_valid : Role → Bool
role_valid r = r == Role.user || r == Role.family

pub record User : Type 0 where
  pub id : DomainId
  pub role : Role
  pub display_name : Str

pub record UserPair : Type 0 where
  pub user_id : DomainId
  pub family_id : DomainId

pub record Actor : Type 0 where
  pub id : DomainId
  pub role : Role

unfoldable pub actor_validate : Actor → Res (Unit {0})
unfolding role_valid
actor_validate a = do
  _ ← new_id a.id
  if not (role_valid a.role) then fail unauthenticated else ok tt

contains_as : Role → UserPair → DomainId → Bool
contains_as Role.user p id = id == p.user_id
contains_as Role.family p id = id == p.family_id
contains_as (Role.other s) p id = false

-- `UserPair.Contains`.
unfoldable pub pair_contains : UserPair → Actor → Bool
unfolding contains_as
pair_contains p actor = contains_as actor.role p actor.id

-- The loop over `allowedRoles`.
unfoldable pub role_allowed : Role → List Role → Bool
role_allowed r [] = false
role_allowed r (allowed ∷ rest) = r == allowed || role_allowed r rest

-- `UserPair.Authorize`.
unfoldable pub authorize : UserPair → Actor → List Role → Res (Unit {0})
unfolding actor_validate pair_contains role_allowed
authorize p actor allowed_roles = do
  _ ← actor_validate actor
  if not (pair_contains p actor)
      then fail forbidden
      else if role_allowed actor.role allowed_roles
      then ok tt
      else fail forbidden

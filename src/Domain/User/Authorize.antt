-- ===== src/Domain/User/Authorize.antt =====
-- Whom `UserPair.Authorize` of server/internal/domain/user.go lets through.
use mite.Prelude.{◌≡◌, ◌⊎◌, ◌↔◌, true, arith, List, ok}
use mite.Text.{str_eq_iff}
use mite.Domain.Enums.{Role, eq_role}
use mite.Domain.Value.{new_id}
use mite.Domain.User.{UserPair, Actor, role_allowed, authorize}

-- The member of a pair that a role names.
abbrev pub IsMember : UserPair → Actor → Type 0
IsMember p a =
    ((a.role ≡ Role.user) × (a.id ≡ p.user_id)) ⊎ ((a.role ≡ Role.family) × (a.id ≡ p.family_id))

-- An actor is authorized exactly if the id is a valid one, the actor is that member of the pair
-- whose role it has, and the role is among the allowed ones.
pub authorize_iff :
    (p : UserPair) (a : Actor) (roles : List Role)
    → (authorize p a roles ≡ ok tt)
      ↔ ((new_id a.id ≡ ok a.id) × IsMember p a × (role_allowed a.role roles ≡ true))
unfolding authorize new_id
authorize_iff p a roles = (
  λ h. ground (arith, str_eq_iff a.id p.user_id, str_eq_iff a.id p.family_id),
  λ h. ground (arith, str_eq_iff a.id p.user_id, str_eq_iff a.id p.family_id),
)

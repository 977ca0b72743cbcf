-- ===== src/Authorization.antt =====
-- backend/app/services/authorization.py, with the queries of backend/app/repositories/users.py and
-- backend/app/repositories/memberships.py that it makes.
pub mod Exact
use context_ledger.Base.{
  ℕ, Bool, true, false, not, ◌&&◌, ◌||◌, Option, none, some, List, find?, count, ◌==◌,
}
use context_ledger.Errors.{Result, ok, permission_denied, raise_if, or_raise, ◌>>=◌, ◌>>◌}
use context_ledger.Roles.{
  MembershipRole, admin, engineer, viewer, Permission, TenantContext, has_permission, scope_permits,
}
use context_ledger.Db.{Db, User, OrganizationMembership}

unfoldable pub get_user : Db → ℕ → Option User
get_user db user_id = find? (λ (u : User). u.id == user_id) db.users

-- The row of a user in an organization.
abbrev pub is_row : ℕ → ℕ → OrganizationMembership → Bool
is_row organization_id user_id m = m.organization_id == organization_id && m.user_id == user_id

unfoldable pub get_membership : List OrganizationMembership → ℕ → ℕ → Option OrganizationMembership
get_membership rows organization_id user_id = find? (is_row organization_id user_id) rows

-- `user is None or not user.is_active`
abbrev pub missing_or_inactive : Option User → Bool
missing_or_inactive none = true
missing_or_inactive (some u) = not u.is_active

unfoldable pub require_permission : Db → TenantContext → Permission → Result MembershipRole
require_permission db ctx permission = do
  raise_if (missing_or_inactive (get_user db ctx.user_id)) permission_denied
  m ← or_raise (get_membership db.memberships ctx.organization_id ctx.user_id) permission_denied
  raise_if (not (has_permission m.role permission)) permission_denied
  raise_if (not (scope_permits ctx.scopes permission)) permission_denied
  ok m.role

-- ===== src/Authorization/Exact.antt =====
-- When `require_permission` grants a permission.
use context_ledger.Base.{◌≡◌, ◌↔◌, true, some, arith, Option-cases, inl, inr}
use context_ledger.Errors.{ok}
use context_ledger.Roles.{MembershipRole, Permission, TenantContext, has_permission, scope_permits}
use context_ledger.Db.{Db, User, OrganizationMembership}
use context_ledger.Authorization.{get_user, get_membership, require_permission}

-- The actor is an active user, a member whose current role has the permission, and no token scope
-- leaves the permission out.
pub record IsGranted (db : Db) (ctx : TenantContext) (p : Permission) (r : MembershipRole)
    : Type 0 where
  pub user : User
  pub user_found : get_user db ctx.user_id ≡ some user
  pub user_active : user.is_active ≡ true
  pub member : OrganizationMembership
  pub member_found : get_membership db.memberships ctx.organization_id ctx.user_id ≡ some member
  pub member_role : member.role ≡ r
  pub role_has : has_permission r p ≡ true
  pub scope_has : scope_permits ctx.scopes p ≡ true

ok-IsGranted :
    (db : Db) (ctx : TenantContext) (p : Permission) (r : MembershipRole)
    → require_permission db ctx p ≡ ok r
    → IsGranted db ctx p r
unfolding require_permission
ok-IsGranted db ctx p r h = elim (Option-cases (get_user db ctx.user_id)) [
  | inl gone ↦ absurd (ground arith)
  | inr (u, found) ↦
      elim (Option-cases (get_membership db.memberships ctx.organization_id ctx.user_id)) [
        | inl outsider ↦ absurd (ground arith)
        | inr (m, at) ↦ record {
          user = u;
          user_found = found;
          user_active = ground arith;
          member = m;
          member_found = at;
          member_role = ground arith;
          role_has = ground arith;
          scope_has = ground arith;
        }
      ]
]

-- A permission is granted, with the role `r`, exactly if the actor is an active user whose current
-- membership in the organization has the role `r`, that role has the permission, and the token's
-- scopes, if it has any, include it.
pub require_permission-IsGranted :
    (db : Db) (ctx : TenantContext) (p : Permission) (r : MembershipRole)
    → (require_permission db ctx p ≡ ok r) ↔ IsGranted db ctx p r
unfolding require_permission
require_permission-IsGranted db ctx p r = (ok-IsGranted db ctx p r, λ g. ground arith)

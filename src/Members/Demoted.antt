-- ===== src/Members/Demoted.antt =====
-- Which role counts after a change of roles (backend/app/services/memberships.py).
use context_ledger.Base.{
  ℕ, ◌≡◌, not, ◌||◌, some, List, [], ◌∷◌, arith, Option-cases, inl, inr, if◌then◌else◌,
}
use context_ledger.Errors.{ok, err, permission_denied}
use context_ledger.Roles.{MembershipRole, Permission, TenantContext, has_permission, scope_permits}
use context_ledger.Db.{Db, OrganizationMembership}
use context_ledger.Authorization.{get_user, get_membership, missing_or_inactive, require_permission}
use context_ledger.Members.{set_role, change_role}

get-set_role :
    (o u : ℕ) (r : MembershipRole) (m : OrganizationMembership) (ms : List OrganizationMembership)
    → get_membership ms o u ≡ some m
    → get_membership (set_role o u r ms) o u ≡ some (record m { role = r })
unfolding get_membership set_role
get-set_role o u r m [] e = cc
get-set_role o u r m (x ∷ ms) e = ground (arith, get-set_role o u r m ms)

changed_row :
    (db db' : Db) (ctx : TenantContext) (u : ℕ) (r : MembershipRole) (m : OrganizationMembership)
    → change_role db ctx u r ≡ ok (m, db')
    → (get_membership db'.memberships ctx.organization_id u ≡ some m)
      × (m.role ≡ r)
      × (get_user db' u ≡ get_user db u)
unfolding change_role get_user
changed_row db db' ctx u r m h =
    elim (Option-cases (get_membership db.memberships ctx.organization_id u)) [
      | inl gone ↦ ground arith
      | inr (m0, found) ↦
          ground (arith, get-set_role ctx.organization_id u r m0 db.memberships found)
    ]

-- After a change of a member's role, whatever context that member holds in the organization, a
-- permission is granted to them exactly if they are active, the new role has it, and the scopes of the
-- context permit it; the role granted is the new one.
pub change_role-current :
    (db db' : Db) (ctx stale : TenantContext) (u : ℕ) (r : MembershipRole)
    (m : OrganizationMembership)
    → change_role db ctx u r ≡ ok (m, db')
    → stale.organization_id ≡ ctx.organization_id
    → stale.user_id ≡ u
    → (p : Permission)
    → require_permission db' stale p ≡ (
        if missing_or_inactive (get_user db u)
          || not (has_permission r p)
          || not (scope_permits stale.scopes p)
        then err permission_denied
        else ok r)
unfolding require_permission
change_role-current db db' ctx stale u r m changed same_org same_user p =
    let (found, role, users) = changed_row db db' ctx u r m changed in
    rw (same_org, same_user, found, role, users) (ground arith)

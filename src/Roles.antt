-- ===== src/Roles.antt =====
-- backend/app/domain/roles.py and backend/app/domain/tenancy.py: roles, permissions, and the
-- tenant context of a caller.
use context_ledger.Base.{
  ℕ, Bool, true, false, ◌&&◌, Option, none, some, List, [], ◌∷◌, ◌++◌, any, ◌==◌,
}
use context_ledger.Privacy.{PrivacyScope}

pub data MembershipRole : Type 0 where
  admin engineer viewer : MembershipRole

pub data Permission : Type 0 where
  read_organization read_members manage_members read_facts write_facts revoke_facts : Permission
  read_decisions record_decisions read_audit : Permission

-- The position of a permission in its enumeration, by which `==` tells two apart.
abbrev permission_index : Permission → ℕ
permission_index read_organization = 0
permission_index read_members = 1
permission_index manage_members = 2
permission_index read_facts = 3
permission_index write_facts = 4
permission_index revoke_facts = 5
permission_index read_decisions = 6
permission_index record_decisions = 7
permission_index read_audit = 8

-- `permission in scopes`
abbrev pub permits : List Permission → Permission → Bool
permits scopes p = any (λ q. permission_index p == permission_index q) scopes

abbrev viewer_permissions : List Permission
viewer_permissions = read_organization ∷ read_members ∷ read_facts ∷ read_decisions ∷ []

abbrev engineer_permissions : List Permission
engineer_permissions = viewer_permissions ++ write_facts ∷ record_decisions ∷ []

abbrev admin_permissions : List Permission
admin_permissions =
    read_organization ∷ read_members ∷ manage_members ∷ read_facts ∷ write_facts ∷ revoke_facts
    ∷ read_decisions ∷ record_decisions ∷ read_audit ∷ []

abbrev role_permissions : MembershipRole → List Permission
role_permissions admin = admin_permissions
role_permissions engineer = engineer_permissions
role_permissions viewer = viewer_permissions

unfoldable pub has_permission : MembershipRole → Permission → Bool
has_permission role permission = permits (role_permissions role) permission

abbrev pub is_admin : MembershipRole → Bool
is_admin admin = true
is_admin _ = false

pub record TenantContext : Type 0 where
  pub organization_id : ℕ
  pub user_id : ℕ
  pub role : MembershipRole
  pub scopes : Option (List Permission)
  pub max_privacy_scope : Option PrivacyScope
  pub agent_client_id : Option ℕ

-- `scopes is None or permission in scopes`
abbrev pub scope_permits : Option (List Permission) → Permission → Bool
scope_permits none permission = true
scope_permits (some scopes) permission = permits scopes permission

unfoldable pub can : TenantContext → Permission → Bool
unfolding has_permission
can ctx permission = has_permission ctx.role permission && scope_permits ctx.scopes permission

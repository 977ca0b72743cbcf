-- ===== src/Members.antt =====
-- backend/app/services/memberships.py and backend/app/services/organizations.py, with the queries
-- of backend/app/repositories/memberships.py and backend/app/repositories/organizations.py. A
-- mutation locks the organization's row first, so mutations of one organization run one after
-- another: each is one step on the database.
pub mod Admins
pub mod Demoted
mod Tests
use Prim.Native.String.{String}
use text.Mathlib.Text.{◌==◌ as str_eq}
use context_ledger.Base.{
  ℕ, Bool, true, false, not, ◌&&◌, Option, none, some, List, [], ◌∷◌, find?, any, count, filter,
  ◌==◌, leb, if◌then◌else◌,
}
use context_ledger.Errors.{
  Result, ok, permission_denied, not_found, conflict, invariant_violation, raise_if, or_raise,
  commit, ◌>>=◌, ◌>>◌,
}
use context_ledger.Roles.{
  MembershipRole, admin, is_admin, Permission, read_members, manage_members, TenantContext,
}
use context_ledger.Db.{Db, Organization, OrganizationMembership}
use context_ledger.Authorization.{
  get_user, get_membership, is_row, missing_or_inactive, require_permission,
}

abbrev pub is_admin_of : ℕ → OrganizationMembership → Bool
is_admin_of organization_id m = m.organization_id == organization_id && is_admin m.role

-- `count_with_role(ADMIN)`
unfoldable pub count_admins : ℕ → List OrganizationMembership → ℕ
count_admins organization_id rows = count (is_admin_of organization_id) rows

-- `membership.role = role`, on the row of the user.
unfoldable pub set_role :
    ℕ → ℕ → MembershipRole → List OrganizationMembership → List OrganizationMembership
set_role o u r [] = []
set_role o u r (m ∷ ms) =
    let rest = set_role o u r ms in if is_row o u m then record m { role = r } ∷ ms else m ∷ rest

-- `DELETE` of the row of the user.
unfoldable pub delete_member : ℕ → ℕ → List OrganizationMembership → List OrganizationMembership
delete_member o u [] = []
delete_member o u (m ∷ ms) =
    let rest = delete_member o u ms in if is_row o u m then ms else m ∷ rest

-- `OrganizationRepository.lock`: whether the row exists.
unfoldable pub organization_exists : Db → ℕ → Bool
organization_exists db organization_id =
    any (λ (o : Organization). o.id == organization_id) db.organizations

-- `_authorize` of a mutation.
unfoldable pub authorize : Db → TenantContext → Permission → Result (Unit {0})
authorize db ctx permission = do
  raise_if (not (organization_exists db ctx.organization_id)) permission_denied
  role ← require_permission db ctx permission
  ok tt

abbrev is_some {ℓ} : {A : Type ℓ} → Option A → Bool
is_some none = false
is_some (some a) = true

unfoldable pub add_member :
    Db → TenantContext → ℕ → MembershipRole → Result (OrganizationMembership × Db)
add_member db ctx user_id role = do
  authorize db ctx manage_members
  raise_if (missing_or_inactive (get_user db user_id)) not_found
  raise_if (is_some (get_membership db.memberships ctx.organization_id user_id)) conflict
  let row : OrganizationMembership = record {
    organization_id = ctx.organization_id;
    user_id = user_id;
    role = role;
  }
  ok (row, record db { memberships = row ∷ db.memberships })

-- `_ensure_another_admin`
unfoldable pub ensure_another_admin : Db → ℕ → Result (Unit {0})
ensure_another_admin db organization_id =
    raise_if (leb (count_admins organization_id db.memberships) 1) invariant_violation

unfoldable pub change_role :
    Db → TenantContext → ℕ → MembershipRole → Result (OrganizationMembership × Db)
change_role db ctx user_id role = do
  authorize db ctx manage_members
  m ← or_raise (get_membership db.memberships ctx.organization_id user_id) not_found
  if is_admin m.role && not (is_admin role)
      then ensure_another_admin db ctx.organization_id
      else ok tt
  ok (
    record m { role = role },
    record db { memberships = set_role ctx.organization_id user_id role db.memberships },
  )

unfoldable pub remove_member : Db → TenantContext → ℕ → Result (Unit {0} × Db)
remove_member db ctx user_id = do
  authorize db ctx manage_members
  m ← or_raise (get_membership db.memberships ctx.organization_id user_id) not_found
  if is_admin m.role then ensure_another_admin db ctx.organization_id else ok tt
  ok (tt, record db { memberships = delete_member ctx.organization_id user_id db.memberships })

-- `OrganizationService.create` with a slug and a name already normalised, and the row's new id.
unfoldable pub create_organization : Db → ℕ → String → String → ℕ → Result (Organization × Db)
create_organization db new_id name slug creator_user_id = do
  raise_if (missing_or_inactive (get_user db creator_user_id)) not_found
  raise_if (any (λ (o : Organization). str_eq o.slug slug) db.organizations) conflict
  let row : Organization = record { id = new_id; slug = slug; name = name }
  let first : OrganizationMembership = record {
    organization_id = new_id;
    user_id = creator_user_id;
    role = admin;
  }
  ok (
    row,
    record db { organizations = row ∷ db.organizations; memberships = first ∷ db.memberships },
  )

-- A request of a client, and the database after its transaction.
pub data Request : Type 0 where
  add : TenantContext → ℕ → MembershipRole → Request
  change : TenantContext → ℕ → MembershipRole → Request
  remove : TenantContext → ℕ → Request
  create : ℕ → String → String → ℕ → Request

unfoldable pub handle : Db → Request → Db
handle db (add ctx user_id role) = commit db (add_member db ctx user_id role)
handle db (change ctx user_id role) = commit db (change_role db ctx user_id role)
handle db (remove ctx user_id) = commit db (remove_member db ctx user_id)
handle db (create new_id name slug creator) =
    commit db (create_organization db new_id name slug creator)

unfoldable pub handle_all : Db → List Request → Db
handle_all db [] = db
handle_all db (r ∷ rs) = handle_all (handle db r) rs

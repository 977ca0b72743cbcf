-- ===== src/Members/Tests.antt =====
-- Runs and instances for backend/app/services/authorization.py, backend/app/services/memberships.py
-- and backend/app/services/organizations.py.
use context_ledger.Base.{
  ℕ, ◌≡◌, ◌↔◌, refl, true, none, not, ◌||◌, if◌then◌else◌, List, [], ◌∷◌, arith,
}
use context_ledger.Errors.{ok, err, permission_denied}
use context_ledger.Roles.{admin, viewer, TenantContext, read_facts, has_permission, scope_permits}
use context_ledger.Db.{Db, OrganizationMembership}
use context_ledger.Authorization.{get_user, get_membership, missing_or_inactive, require_permission}
use context_ledger.Authorization.Exact.{IsGranted, require_permission-IsGranted}
use context_ledger.Members.{
  count_admins, set_role, delete_member, organization_exists, authorize, ensure_another_admin,
  change_role, remove_member, create_organization, Request, remove, create, handle, handle_all,
}
use context_ledger.Members.Admins.{IsManaged, handle_all-IsManaged}
use context_ledger.Members.Demoted.{change_role-current}

-- Organization 1 has the ADMINs 10 and 11.
abbrev db : Db
db = record {
  users =
      record { id = 10; is_active = true }
      ∷ record { id = 11; is_active = true }
      ∷ record { id = 12; is_active = true }
      ∷ [];
  organizations = record { id = 1; slug = "acme"; name = "Acme" } ∷ [];
  memberships =
      record { organization_id = 1; user_id = 10; role = admin }
      ∷ record { organization_id = 1; user_id = 11; role = admin }
      ∷ [];
  sources = [];
  entities = [];
  facts = [];
  versions = [];
  evidence = [];
  links = [];
  contradictions = [];
  revocations = [];
  decisions = [];
  snapshots = [];
  snapshot_facts = [];
  decision_facts = [];
  impacts = [];
}

abbrev acting : ℕ → TenantContext
acting user_id = record {
  organization_id = 1;
  user_id = user_id;
  role = admin;
  scopes = none;
  max_privacy_scope = none;
  agent_client_id = none;
}

db-IsManaged : IsManaged db
unfolding organization_exists count_admins
db-IsManaged o h = ground arith

-- The second of two ADMINs cannot leave: the request is refused.
abbrev both_leave : List Request
both_leave = remove (acting 10) 10 ∷ remove (acting 11) 11 ∷ create 2 "Beta" "beta" 12 ∷ []

both_leave_admins : count_admins 1 (handle_all db both_leave).memberships ≡ 1
unfolding handle_all handle remove_member create_organization authorize organization_exists
    require_permission get_user get_membership has_permission ensure_another_admin count_admins
    delete_member
both_leave_admins = refl

handle_all-IsManaged_example : IsManaged (handle_all db both_leave)
handle_all-IsManaged_example = handle_all-IsManaged db both_leave db-IsManaged

require_permission-IsGranted_example :
    (require_permission db (acting 10) read_facts ≡ ok admin)
    ↔ IsGranted db (acting 10) read_facts admin
require_permission-IsGranted_example = require_permission-IsGranted db (acting 10) read_facts admin

abbrev demoted : OrganizationMembership
demoted = record { organization_id = 1; user_id = 11; role = viewer }

abbrev after : Db
after = record db {
  memberships = record { organization_id = 1; user_id = 10; role = admin } ∷ demoted ∷ [];
}

demotion : change_role db (acting 10) 11 viewer ≡ ok (demoted, after)
unfolding change_role authorize organization_exists require_permission get_user get_membership
    has_permission ensure_another_admin count_admins set_role
demotion = refl

change_role-current_example : require_permission after (acting 11) read_facts ≡ (
    if missing_or_inactive (get_user db 11)
      || not (has_permission viewer read_facts)
      || not (scope_permits (acting 11).scopes read_facts)
    then err permission_denied
    else ok viewer)
change_role-current_example =
    change_role-current db after (acting 10) (acting 11) 11 viewer demoted demotion refl refl
      read_facts

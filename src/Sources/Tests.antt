-- ===== src/Sources/Tests.antt =====
-- A source, one of a name that is taken, and two whose authority is refused (backend/app/services/facts.py).
use context_ledger.Authority.{pos, negsuc, integer, boolean, validate_authority}
use context_ledger.Base.{◌≡◌, refl, true, none, List, [], ◌∷◌, All}
use context_ledger.Roles.{engineer, TenantContext, has_permission}
use context_ledger.Db.{Db}
use context_ledger.Authorization.{get_user, get_membership, require_permission}
use context_ledger.Sources.{register_source, Registration, register_all}
use context_ledger.Sources.Names.{AreSources, IsFrom, register_all-AreSources}

abbrev db : Db
db = record {
  users = record { id = 10; is_active = true } ∷ [];
  organizations = record { id = 1; slug = "acme"; name = "Acme" } ∷ [];
  memberships = record { organization_id = 1; user_id = 10; role = engineer } ∷ [];
  sources = [];
  entities = [];
  facts = [];
  versions = [];
  evidence = [];
  links = [];
  contradictions = [];
  revocations = [];
  decisions = [];
  snapshots = [];
  snapshot_facts = [];
  decision_facts = [];
  impacts = [];
}

abbrev ctx : TenantContext
ctx = record {
  organization_id = 1;
  user_id = 10;
  role = engineer;
  scopes = none;
  max_privacy_scope = none;
  agent_client_id = none;
}

abbrev requests : List Registration
requests =
    record { ctx = ctx; new_id = 20; name = "crm"; default_authority = integer (pos 50) }
    ∷ record { ctx = ctx; new_id = 21; name = "crm"; default_authority = integer (pos 80) }
    ∷ record { ctx = ctx; new_id = 22; name = "erp"; default_authority = integer (negsuc 0) }
    ∷ record { ctx = ctx; new_id = 23; name = "web"; default_authority = boolean true }
    ∷ []

one_registered :
    (register_all requests db).sources
    ≡ (record { id = 20; organization_id = 1; name = "crm"; default_authority = 50 } ∷ [])
unfolding register_all register_source validate_authority get_user get_membership require_permission
    has_permission
one_registered = refl

register_all-AreSources_example :
    AreSources (register_all requests db).sources
    × All (IsFrom requests []) (register_all requests db).sources
register_all-AreSources_example = register_all-AreSources requests db tt

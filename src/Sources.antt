-- ===== src/Sources.antt =====
-- The other operations of backend/app/services/facts.py (`FactService`): registering a source, and
-- reading versions and facts. Names and addresses are taken normalised; the type and the address of
-- a source are stored and never read by what is modelled.
pub mod Names
mod Tests
use Prim.Native.String.{String}
use text.Mathlib.Text.{◌==◌ as str_eq}
use context_ledger.Authority.{Authority, validate_authority}
use context_ledger.Base.{ℕ, Bool, ◌&&◌, List, [], ◌∷◌, find?, any, ◌==◌}
use context_ledger.Errors.{Result, ok, not_found, conflict, raise_if, or_raise, commit, ◌>>=◌, ◌>>◌}
use context_ledger.Roles.{TenantContext, read_facts, write_facts}
use context_ledger.Versions.{FactVersion}
use context_ledger.Db.{Db, FactSource, Fact}
use context_ledger.Authorization.{require_permission}
use context_ledger.EvidenceLinks.{get_version}
use context_ledger.Recording.{get_fact, list_versions}

-- The row that `get_source_by_name` looks for.
abbrev pub has_name : ℕ → String → FactSource → Bool
has_name o name s = s.organization_id == o && str_eq s.name name

unfoldable pub register_source :
    Db → TenantContext → ℕ → String → Authority → Result (FactSource × Db)
register_source db ctx new_id name default_authority = do
  authority ← validate_authority default_authority
  role ← require_permission db ctx write_facts
  raise_if (any (has_name ctx.organization_id name) db.sources) conflict
  let source : FactSource = record {
    id = new_id;
    organization_id = ctx.organization_id;
    name = name;
    default_authority = authority;
  }
  ok (source, record db { sources = source ∷ db.sources })

-- `FactService.get_version`
unfoldable pub read_version : Db → TenantContext → ℕ → Result FactVersion
read_version db ctx version_id = do
  role ← require_permission db ctx read_facts
  or_raise (get_version db ctx.organization_id version_id) not_found

-- `FactService.get_fact`
unfoldable pub read_fact : Db → TenantContext → ℕ → Result Fact
read_fact db ctx fact_id = do
  role ← require_permission db ctx read_facts
  or_raise (get_fact db ctx.organization_id fact_id) not_found

-- `FactService.list_versions`
unfoldable pub read_versions : Db → TenantContext → ℕ → Result (List FactVersion)
read_versions db ctx fact_id = do
  role ← require_permission db ctx read_facts
  fact ← or_raise (get_fact db ctx.organization_id fact_id) not_found
  ok (list_versions ctx.organization_id fact_id db.versions)

-- A request to register a source.
pub record Registration : Type 0 where
  pub ctx : TenantContext
  pub new_id : ℕ
  pub name : String
  pub default_authority : Authority

unfoldable pub register_all : List Registration → Db → Db
register_all [] db = db
register_all (r ∷ rs) db =
    register_all rs (commit db (register_source db r.ctx r.new_id r.name r.default_authority))

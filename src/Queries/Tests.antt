-- ===== src/Queries/Tests.antt =====
-- The lineage and the facts of a customer whose status changed (backend/app/services/temporal.py).
use Prim.Native.String.{String}
use Prim.Native.String.{count as str_length}
use context_ledger.Base.{ℕ, ◌+◌, ◌≡◌, refl, true, none, some, List, [], ◌∷◌, ◌++◌, map, arith}
use context_ledger.Base.Distinct.{Distinct}
use context_ledger.Errors.{ok}
use context_ledger.Privacy.{internal}
use context_ledger.Roles.{TenantContext, viewer, read_facts, has_permission}
use context_ledger.Facts.{aware, require_aware, require_aware_opt}
use context_ledger.Versions.{FactVersion, to_snapshot}
use context_ledger.Temporal.{valid_at_condition, not_revoked_condition}
use context_ledger.Db.{Db}
use context_ledger.Authorization.{require_permission, get_user, get_membership}
use context_ledger.EvidenceLinks.{get_version}
use context_ledger.Recording.{list_versions, of_fact, row_version}
use context_ledger.Queries.{
  ResolvedFact, Lineage, entity_named, best_of, facts_valid_at, facts_at, lineage,
}
use context_ledger.Queries.Split.{lineage-split}

abbrev version : ℕ → ℕ → FactVersion
version i n = record {
  id = i;
  organization_id = 1;
  fact_id = 40;
  version = n;
  value = n;
  source_id = 20;
  valid_from = 1000 + n;
  valid_until = none;
  observed_at = 1000 + n;
  recorded_at = 1100 + n;
  valid_until_recorded_at = none;
  supersedes_id = none;
  authority = 50;
  confidence = 1000;
  privacy_scope = internal;
}

abbrev first : FactVersion
first = record (version 50 1) { valid_until = some 1002; valid_until_recorded_at = some 1102 }

abbrev second : FactVersion
second = record (version 51 2) { valid_until = some 1003; valid_until_recorded_at = some 1103 }

abbrev third : FactVersion
third = version 52 3

abbrev db : Db
db = record {
  users = record { id = 10; is_active = true } ∷ [];
  organizations = record { id = 1; slug = "acme"; name = "Acme" } ∷ [];
  memberships = record { organization_id = 1; user_id = 10; role = viewer } ∷ [];
  sources = record { id = 20; organization_id = 1; name = "crm"; default_authority = 50 } ∷ [];
  entities =
      record { id = 30; organization_id = 1; entity_type = "customer"; external_id = "991" } ∷ [];
  facts = record { id = 40; organization_id = 1; entity_id = 30; property = "status" } ∷ [];
  versions = third ∷ first ∷ second ∷ [];
  evidence = [];
  links = [];
  contradictions = [];
  revocations = [];
  decisions = [];
  snapshots = [];
  snapshot_facts = [];
  decision_facts = [];
  impacts = [];
}

abbrev ctx : TenantContext
ctx = record {
  organization_id = 1;
  user_id = 10;
  role = viewer;
  scopes = none;
  max_privacy_scope = none;
  agent_client_id = none;
}

allowed : require_permission db ctx read_facts ≡ ok viewer
unfolding require_permission get_user get_membership has_permission
allowed = refl

found : get_version db 1 51 ≡ some second
unfolding get_version
found = refl

different_ids : Distinct (λ (x : FactVersion). x.id) (of_fact 1 40 db.versions)
unfolding of_fact
different_ids = ((omega arith, (omega arith, tt)), ((omega arith, tt), (tt, tt)))

different_numbers : Distinct row_version (of_fact 1 40 db.versions)
unfolding of_fact
different_numbers = ((omega arith, (omega arith, tt)), ((omega arith, tt), (tt, tt)))

lineage-split_example :
    (l : Lineage) × (lineage db ctx 51 ≡ ok l)
    × (l.version ≡ to_snapshot second)
    × (l.ancestors ++ (l.version ∷ l.descendants)
        ≡ map to_snapshot (list_versions 1 40 db.versions))
lineage-split_example =
    lineage-split db ctx 51 second viewer allowed found different_ids different_numbers

abbrev rank : String → ℕ
rank s = str_length s

abbrev version_ids : List ResolvedFact → List ℕ
version_ids fs = map (λ (f : ResolvedFact). f.version.id) fs

-- At 1002 the second version was valid; as known at 1102 its end was not known yet.
valid_then :
    facts_at rank rank db ctx 5000 "customer" "991" (some (aware 1002)) (some (aware 1102))
    ≡ ok (
        record {
          fact_id = 40;
          entity_id = 30;
          entity_type = "customer";
          external_id = "991";
          property = "status";
          version = record (to_snapshot second) {
            valid_until = none;
            valid_until_recorded_at = none;
          };
        }
        ∷ [])
unfolding facts_at require_aware require_aware_opt require_permission get_user get_membership
    has_permission entity_named facts_valid_at best_of valid_at_condition not_revoked_condition
valid_then = refl

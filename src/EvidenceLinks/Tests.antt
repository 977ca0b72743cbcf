-- ===== src/EvidenceLinks/Tests.antt =====
-- Evidence that is linked, one of the two ids already (backend/app/services/evidence.py).
use context_ledger.Base.{ℕ, ◌≡◌, refl, none, [], ◌∷◌}
use context_ledger.Errors.{ok}
use context_ledger.Privacy.{internal}
use context_ledger.Roles.{engineer, TenantContext}
use context_ledger.Versions.{FactVersion}
use context_ledger.Db.{Db, FactVersionEvidence, supports}
use context_ledger.EvidenceLinks.{
  unique_from, get_version, has_evidence, get_link, insert_link, link_each, link_unique, link_some,
  link_evidence,
}
use context_ledger.EvidenceLinks.Kept.{Added, link_evidence-Added}

abbrev link : ℕ → FactVersionEvidence
link id = record {
  organization_id = 1;
  fact_version_id = 50;
  evidence_id = id;
  relation = supports;
  linked_by_user_id = 10;
}

abbrev version : FactVersion
version = record {
  id = 50;
  organization_id = 1;
  fact_id = 40;
  version = 1;
  value = 1;
  source_id = 20;
  valid_from = 900;
  valid_until = none;
  observed_at = 1200;
  recorded_at = 1210;
  valid_until_recorded_at = none;
  supersedes_id = none;
  authority = 50;
  confidence = 1000;
  privacy_scope = internal;
}

abbrev db : Db
db = record {
  users = [];
  organizations = [];
  memberships = [];
  sources = [];
  entities = [];
  facts = [];
  versions = version ∷ [];
  evidence =
      record {
        id = 5;
        organization_id = 1;
        source_id = 20;
        content_sha256 = "a";
        privacy_scope = internal;
      }
      ∷ record {
        id = 6;
        organization_id = 1;
        source_id = 20;
        content_sha256 = "b";
        privacy_scope = internal;
      }
      ∷ [];
  links = link 5 ∷ [];
  contradictions = [];
  revocations = [];
  decisions = [];
  snapshots = [];
  snapshot_facts = [];
  decision_facts = [];
  impacts = [];
}

abbrev ctx : TenantContext
ctx = record {
  organization_id = 1;
  user_id = 10;
  role = engineer;
  scopes = none;
  max_privacy_scope = none;
  agent_client_id = none;
}

abbrev after : Db
after = record db { links = link 6 ∷ link 5 ∷ [] }

one_linked : link_evidence db ctx 50 (5 ∷ 6 ∷ 5 ∷ []) supports ≡ ok (1, after)
unfolding link_evidence unique_from link_some link_unique get_version has_evidence link_each
    get_link insert_link
one_linked = refl

link_evidence-Added_example :
    Added ctx 50 supports 1 db.links after.links × (after ≡ record db { links = after.links })
link_evidence-Added_example =
    link_evidence-Added db after ctx 50 1 (5 ∷ 6 ∷ 5 ∷ []) supports one_linked

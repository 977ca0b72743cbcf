-- ===== src/Recording/Tests.antt =====
-- Runs and instances for backend/app/services/facts.py.
use context_ledger.Authority.{validate_authority}
use context_ledger.Base.{
  ◌≡◌, refl, true, false, none, some, [], ◌∷◌, ◌==◌, ◌&&◌, if◌then◌else◌, arith,
}
use context_ledger.Errors.{ok}
use context_ledger.Privacy.{internal}
use context_ledger.Roles.{admin, TenantContext, has_permission}
use context_ledger.Facts.{
  aware, make_window, check_end, require_aware, require_aware_opt, plan_new_version,
}
use context_ledger.Versions.{FactVersion}
use context_ledger.Contradictions.{value_conflict, preferred}
use context_ledger.Db.{Db, value_conflict_kind, open_status}
use context_ledger.Authorization.{get_user, get_membership, require_permission}
use context_ledger.EvidenceLinks.{unique_from, link_some, link_evidence}
use context_ledger.Recording.{
  Command, Supply, get_source, get_or_create_entity, get_or_create_fact, get_fact, of_fact,
  latest_version, next_transaction_time, close_row, close_version, close_previous, latest_view,
  new_version, detect_value_conflict, append_version, record_version, history,
}
use context_ledger.Recording.Rows.{IsHistory, IsTable}
use context_ledger.Recording.Service.{record_version-IsTable}
use context_ledger.Recording.Knowledge.{record_version-past}
use context_ledger.Recording.Conflicts.{Detected, record_version-Detected}

abbrev crm_active : FactVersion
crm_active = record {
  id = 50;
  organization_id = 1;
  fact_id = 40;
  version = 1;
  value = 1;
  source_id = 20;
  valid_from = 900;
  valid_until = none;
  observed_at = 1200;
  recorded_at = 1210;
  valid_until_recorded_at = none;
  supersedes_id = none;
  authority = 50;
  confidence = 1000;
  privacy_scope = internal;
}

-- The CRM (source 20) has recorded that customer 991 is active (value 1).
abbrev db : Db
db = record {
  users = record { id = 10; is_active = true } ∷ [];
  organizations = record { id = 1; slug = "acme"; name = "Acme" } ∷ [];
  memberships = record { organization_id = 1; user_id = 10; role = admin } ∷ [];
  sources =
      record { id = 20; organization_id = 1; name = "crm"; default_authority = 50 }
      ∷ record { id = 21; organization_id = 1; name = "billing"; default_authority = 80 }
      ∷ [];
  entities =
      record { id = 30; organization_id = 1; entity_type = "customer"; external_id = "991" } ∷ [];
  facts = record { id = 40; organization_id = 1; entity_id = 30; property = "status" } ∷ [];
  versions = crm_active ∷ [];
  evidence = [];
  links = [];
  contradictions = [];
  revocations = [];
  decisions = [];
  snapshots = [];
  snapshot_facts = [];
  decision_facts = [];
  impacts = [];
}

abbrev ctx : TenantContext
ctx = record {
  organization_id = 1;
  user_id = 10;
  role = admin;
  scopes = none;
  max_privacy_scope = none;
  agent_client_id = none;
}

-- Billing (source 21) reports the value 2, valid from 1000.
abbrev suspended : Command
suspended = record {
  entity_type = "customer";
  external_id = "991";
  property = "status";
  value = 2;
  source_id = 21;
  valid_from = aware 1000;
  valid_until = none;
  observed_at = none;
  authority = none;
  confidence = 900;
  privacy_scope = internal;
  evidence_ids = [];
}

abbrev supply : Supply
supply = record {
  entity_id = 31;
  fact_id = 41;
  version_id = 51;
  contradiction_id = 60;
  clock = 1205;
}

-- The clock stepped back, so the transaction time is one past the latest version's.
abbrev billing_suspended : FactVersion
billing_suspended = record {
  id = 51;
  organization_id = 1;
  fact_id = 40;
  version = 2;
  value = 2;
  source_id = 21;
  valid_from = 1000;
  valid_until = none;
  observed_at = 1000;
  recorded_at = 1211;
  valid_until_recorded_at = none;
  supersedes_id = some 50;
  authority = 80;
  confidence = 900;
  privacy_scope = internal;
}

abbrev after : Db
after = record db {
  versions =
      billing_suspended
      ∷ record crm_active { valid_until = some 1000; valid_until_recorded_at = some 1211 }
      ∷ [];
  contradictions =
      record {
        id = 60;
        organization_id = 1;
        entity_id = 30;
        left_version_id = 50;
        right_version_id = 51;
        kind = value_conflict_kind;
        preferred_version_id = some 51;
        privacy_scope = internal;
        status = open_status;
        resolution_note = none;
        resolved_by_user_id = none;
        resolved_at = none;
      }
      ∷ [];
}

recorded : record_version db ctx supply suspended ≡ ok (billing_suspended, after)
unfolding record_version make_window check_end require_aware require_aware_opt plan_new_version
    value_conflict preferred get_user get_membership require_permission has_permission unique_from
    link_some link_evidence validate_authority get_source get_or_create_entity get_or_create_fact
    of_fact latest_version next_transaction_time close_row close_version close_previous latest_view
    new_version detect_value_conflict append_version
recorded = refl

db-IsTable : IsTable db.versions
unfolding of_fact
db-IsTable = record {
  unique = (tt, tt);
  histories = λ o f.
      elim (1 == o && 40 == f) as (λ b. IsHistory (if b then crm_active ∷ [] else [])) [
        | true ↦ (tt, (tt, (refl, refl), tt))
        | false ↦ tt
      ];
}

record_version-IsTable_example : IsTable after.versions
record_version-IsTable_example =
    record_version-IsTable db after ctx supply suspended billing_suspended db-IsTable
      (omega arith, tt) recorded

record_version-past_example :
    history after ctx 40 (some (aware 1210)) ≡ history db ctx 40 (some (aware 1210))
unfolding get_fact
record_version-past_example =
    record_version-past db after ctx ctx supply suspended billing_suspended 40 1210 db-IsTable
      recorded refl (omega arith)

record_version-Detected_example :
    Detected
      (latest_version 1 40 db.versions)
      billing_suspended
      db.contradictions
      after.contradictions
record_version-Detected_example =
    record_version-Detected db after ctx supply suspended billing_suspended recorded

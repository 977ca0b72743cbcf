-- ===== src/Versions.antt =====
-- backend/app/models/fact.py (a row of fact_versions), backend/app/temporal/model.py (its immutable
-- copy) and `to_snapshot` of backend/app/services/temporal.py. Identifiers (UUIDs) are numbers,
-- instants are microseconds, a confidence is its number of thousandths, and a JSON value, which is
-- only compared, is the number of its class under `==`.
use context_ledger.Base.{ℕ, Option}
use context_ledger.Privacy.{PrivacyScope}

pub record FactVersion : Type 0 where
  pub id : ℕ
  pub organization_id : ℕ
  pub fact_id : ℕ
  pub version : ℕ
  pub value : ℕ
  pub source_id : ℕ
  pub valid_from : ℕ
  pub valid_until : Option ℕ
  pub observed_at : ℕ
  pub recorded_at : ℕ
  pub valid_until_recorded_at : Option ℕ
  pub supersedes_id : Option ℕ
  pub authority : ℕ
  pub confidence : ℕ
  pub privacy_scope : PrivacyScope

pub record VersionSnapshot : Type 0 where
  pub id : ℕ
  pub fact_id : ℕ
  pub version : ℕ
  pub value : ℕ
  pub source_id : ℕ
  pub valid_from : ℕ
  pub valid_until : Option ℕ
  pub observed_at : ℕ
  pub recorded_at : ℕ
  pub valid_until_recorded_at : Option ℕ
  pub supersedes_id : Option ℕ
  pub authority : ℕ
  pub confidence : ℕ
  pub privacy_scope : PrivacyScope

abbrev pub to_snapshot : FactVersion → VersionSnapshot
to_snapshot v = record {
  id = v.id;
  fact_id = v.fact_id;
  version = v.version;
  value = v.value;
  source_id = v.source_id;
  valid_from = v.valid_from;
  valid_until = v.valid_until;
  observed_at = v.observed_at;
  recorded_at = v.recorded_at;
  valid_until_recorded_at = v.valid_until_recorded_at;
  supersedes_id = v.supersedes_id;
  authority = v.authority;
  confidence = v.confidence;
  privacy_scope = v.privacy_scope;
}

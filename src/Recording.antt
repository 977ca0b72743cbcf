-- ===== src/Recording.antt =====
-- backend/app/services/facts.py (`FactService`), with the queries of backend/app/repositories/facts.py.
-- `record_version` locks the fact's row, so writes to one fact run one after another: a call is one
-- step on the database. The texts, the value and the confidence of its command are taken after
-- normalisation; new identifiers and the database's clock are inputs.
pub mod Steps
pub mod Rows
pub mod Past
pub mod Keeps
pub mod Service
pub mod Tables
pub mod Knowledge
pub mod Conflicts
mod Tests
use Prim.Native.String.{String}
use text.Mathlib.Text.{◌==◌ as str_eq}
use context_ledger.Base.{
  ℕ, suc, ◌+◌, Bool, true, false, not, ◌&&◌, Option, none, some, List, [], ◌∷◌, map, find?, filter,
  ◌==◌, leb, ltb, if◌then◌else◌,
}
use context_ledger.Base.Sort.{sort_by, max_by}
use context_ledger.Errors.{
  Result, ok, err, validation_failed, not_found, raise_if, or_raise, ◌>>=◌, ◌>>◌,
}
use context_ledger.Privacy.{PrivacyScope, max_privacy}
use context_ledger.Roles.{TenantContext, read_facts, write_facts}
use context_ledger.Facts.{
  Stamp, ValidityWindow, LatestVersion, VersionPlan, check_end, make_window, require_aware,
  plan_new_version,
}
use context_ledger.Versions.{FactVersion, VersionSnapshot, to_snapshot}
use context_ledger.Temporal.{history_as_known}
use context_ledger.Contradictions.{VersionFacts, rule_view, value_conflict, preferred}
use context_ledger.Db.{
  Db, FactSource, Entity, Fact, Contradiction, value_conflict_kind, open_status, supports,
}
use context_ledger.Authority.{Authority, integer, pos, validate_authority}
use context_ledger.Authorization.{require_permission}
use context_ledger.EvidenceLinks.{get_version, link_evidence}

-- A `RecordFactVersion`, its texts, value and confidence after normalisation.
pub record Command : Type 0 where
  pub entity_type : String
  pub external_id : String
  pub property : String
  pub value : ℕ
  pub source_id : ℕ
  pub valid_from : Stamp
  pub valid_until : Option Stamp
  pub observed_at : Option Stamp
  pub authority : Option Authority
  pub confidence : ℕ
  pub privacy_scope : PrivacyScope
  pub evidence_ids : List ℕ

-- What the database supplies: an id for each row that may be inserted, and its clock.
pub record Supply : Type 0 where
  pub entity_id : ℕ
  pub fact_id : ℕ
  pub version_id : ℕ
  pub contradiction_id : ℕ
  pub clock : ℕ

unfoldable pub get_source : Db → ℕ → ℕ → Option FactSource
get_source db o source_id =
    find? (λ (s : FactSource). s.organization_id == o && s.id == source_id) db.sources

unfoldable pub get_or_create_entity : Db → ℕ → ℕ → String → String → Entity × Db
get_or_create_entity db new_id o entity_type external_id =
    elim (find?
      (λ (e : Entity).
        e.organization_id == o
        && str_eq e.entity_type entity_type
        && str_eq e.external_id external_id)
      db.entities) [
        | some e ↦ (e, db)
        | none ↦
            let row : Entity = record {
              id = new_id;
              organization_id = o;
              entity_type = entity_type;
              external_id = external_id;
            } in
            (row, record db { entities = row ∷ db.entities })
      ]

unfoldable pub get_or_create_fact : Db → ℕ → ℕ → ℕ → String → Fact × Db
get_or_create_fact db new_id o entity_id property =
    elim (find?
      (λ (f : Fact).
        f.organization_id == o && f.entity_id == entity_id && str_eq f.property property)
      db.facts) [
        | some f ↦ (f, db)
        | none ↦
            let row : Fact = record {
              id = new_id;
              organization_id = o;
              entity_id = entity_id;
              property = property;
            } in
            (row, record db { facts = row ∷ db.facts })
      ]

unfoldable pub get_fact : Db → ℕ → ℕ → Option Fact
get_fact db o fact_id = find? (λ (f : Fact). f.organization_id == o && f.id == fact_id) db.facts

-- The rows of one fact.
unfoldable pub of_fact : ℕ → ℕ → List FactVersion → List FactVersion
of_fact o fact_id = filter (λ (v : FactVersion). v.organization_id == o && v.fact_id == fact_id)

abbrev pub row_version : FactVersion → ℕ
row_version v = v.version

unfoldable pub latest_version : ℕ → ℕ → List FactVersion → Option FactVersion
latest_version o fact_id versions = max_by row_version (of_fact o fact_id versions)

unfoldable pub list_versions : ℕ → ℕ → List FactVersion → List FactVersion
list_versions o fact_id versions = sort_by row_version (of_fact o fact_id versions)

unfoldable pub next_transaction_time : ℕ → Option FactVersion → ℕ
next_transaction_time now none = now
next_transaction_time now (some latest) =
    if leb now latest.recorded_at then latest.recorded_at + 1 else now

abbrev pub open_ended : Option ℕ → Bool
open_ended none = true
open_ended (some u) = false

-- `UPDATE … WHERE id = … AND valid_until IS NULL`, on one row.
unfoldable pub close_row : ℕ → ℕ → ℕ → ℕ → FactVersion → FactVersion
close_row o id valid_until recorded_at v =
    if v.organization_id == o && v.id == id && open_ended v.valid_until
    then record v { valid_until = some valid_until; valid_until_recorded_at = some recorded_at }
    else v

unfoldable pub close_version : ℕ → ℕ → ℕ → ℕ → List FactVersion → List FactVersion
close_version o id valid_until recorded_at = map (close_row o id valid_until recorded_at)

-- `LatestVersion(version=…, window=ValidityWindow(latest.valid_from, latest.valid_until))`
unfoldable pub latest_view : Option FactVersion → Result (Option LatestVersion)
latest_view none = ok none
latest_view (some latest) = do
  w ← check_end latest.valid_from latest.valid_until
  ok (some (record { version = latest.version; window = w }))

-- `if latest is not None and plan.close_previous_at is not None`
unfoldable pub close_previous :
    ℕ → Option FactVersion → Option ℕ → ℕ → List FactVersion → List FactVersion
close_previous o none close_at recorded_at versions = versions
close_previous o (some latest) none recorded_at versions = versions
close_previous o (some latest) (some c) recorded_at versions =
    close_version o latest.id c recorded_at versions

-- `None if valid_until is None else recorded_at`
abbrev pub end_learned : Option ℕ → ℕ → Option ℕ
end_learned none recorded_at = none
end_learned (some u) recorded_at = some recorded_at

abbrev pub id_opt : Option FactVersion → Option ℕ
id_opt none = none
id_opt (some v) = some v.id

-- `command.observed_at or command.valid_from`
abbrev pub observed_or : Option Stamp → Stamp → Stamp
observed_or none valid_from = valid_from
observed_or (some s) valid_from = s

-- `repository.new_version(…)`
unfoldable pub new_version :
    ℕ → ℕ → ℕ → Command → ValidityWindow → ℕ → ℕ → ℕ → Option FactVersion → ℕ → FactVersion
new_version o id fact_id c window observed_at version authority latest recorded_at = record {
  id = id;
  organization_id = o;
  fact_id = fact_id;
  version = version;
  value = c.value;
  source_id = c.source_id;
  valid_from = window.valid_from;
  valid_until = window.valid_until;
  observed_at = observed_at;
  recorded_at = recorded_at;
  valid_until_recorded_at = end_learned window.valid_until recorded_at;
  supersedes_id = id_opt latest;
  authority = authority;
  confidence = c.confidence;
  privacy_scope = c.privacy_scope;
}

-- The row that `_detect_value_conflict` adds.
abbrev pub conflict_row : ℕ → ℕ → ℕ → FactVersion → FactVersion → Contradiction
conflict_row o new_id entity_id previous new = record {
  id = new_id;
  organization_id = o;
  entity_id = entity_id;
  left_version_id = previous.id;
  right_version_id = new.id;
  kind = value_conflict_kind;
  preferred_version_id = some (preferred (rule_view previous) (rule_view new));
  privacy_scope = max_privacy previous.privacy_scope new.privacy_scope;
  status = open_status;
  resolution_note = none;
  resolved_by_user_id = none;
  resolved_at = none;
}

-- `_detect_value_conflict`; `latest` is the previous version as it was before this write.
unfoldable pub detect_value_conflict :
    ℕ → ℕ → ℕ → Option FactVersion → FactVersion → List Contradiction → List Contradiction
detect_value_conflict o new_id entity_id none new rows = rows
detect_value_conflict o new_id entity_id (some latest) new rows =
    elim (value_conflict (rule_view latest) (rule_view new)) [
      | none ↦ rows
      | some reason ↦ conflict_row o new_id entity_id latest new ∷ rows
    ]

-- `source.default_authority if command.authority is None else command.authority`
abbrev pub authority_or : Option Authority → ℕ → Authority
authority_or none d = integer (pos d)
authority_or (some a) d = a

-- From the locked fact on: plan, close, insert, detect.
unfoldable pub append_version :
    Db
    → TenantContext
    → Supply
    → Command
    → ValidityWindow
    → ℕ
    → ℕ
    → Entity
    → Fact
    → Result (FactVersion × Db)
append_version db ctx s c window observed_at authority entity fact = do
  let o = ctx.organization_id
  let latest = latest_version o fact.id db.versions
  view ← latest_view latest
  plan ← plan_new_version view window
  let recorded_at = next_transaction_time s.clock latest
  let row =
      new_version o s.version_id fact.id c window observed_at plan.version authority latest
        recorded_at
  let closed = close_previous o latest plan.close_previous_at recorded_at db.versions
  ok (
    row,
    record db {
      versions = row ∷ closed;
      contradictions =
          detect_value_conflict o s.contradiction_id entity.id latest row db.contradictions;
    },
  )

unfoldable pub record_version : Db → TenantContext → Supply → Command → Result (FactVersion × Db)
record_version db ctx s c = do
  window ← make_window c.valid_from c.valid_until
  observed_at ← require_aware (observed_or c.observed_at c.valid_from)
  role ← require_permission db ctx write_facts
  source ← or_raise (get_source db ctx.organization_id c.source_id) not_found
  authority ← validate_authority (authority_or c.authority source.default_authority)
  let (entity, db1) =
      get_or_create_entity db s.entity_id ctx.organization_id c.entity_type c.external_id
  let (fact, db2) = get_or_create_fact db1 s.fact_id ctx.organization_id entity.id c.property
  (row, db3) ← append_version db2 ctx s c window observed_at authority entity fact
  (created, db4) ← link_evidence db3 ctx row.id c.evidence_ids supports
  ok (row, db4)

-- `TemporalService.history` of backend/app/services/temporal.py.
unfoldable pub history : Db → TenantContext → ℕ → Option Stamp → Result (List VersionSnapshot)
history db ctx fact_id known_at = do
  role ← require_permission db ctx read_facts
  fact ← or_raise (get_fact db ctx.organization_id fact_id) not_found
  history_as_known (map to_snapshot (list_versions ctx.organization_id fact_id db.versions))
      known_at

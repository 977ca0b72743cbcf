-- ===== src/Receipts.antt =====
-- Decisions and their receipts: backend/app/services/decisions.py (`DecisionService`); Rows has the
-- queries of backend/app/repositories/decisions.py. A decision's texts and outcome are taken as their
-- normalisation leaves them. SHA-256 over canonical JSON is `seal`, a function of the document, and
-- `value_sha256` one of a value. The evidence that a receipt lists is left out, and what a retrieval
-- found is given.
mod Rows
pub mod Document
pub mod ReliedOn
pub mod Sealed
pub mod Verified
pub mod Outcome
pub mod Unchanged
pub mod Redacted
mod Tests
use Prim.Native.String.{String}
use context_ledger.Base.{
  ℕ, ◌+◌, Bool, true, false, not, ◌&&◌, Option, none, some, List, [], ◌∷◌, ◌++◌, map, filter, find?,
  contains, ◌==◌, if◌then◌else◌,
}
use context_ledger.Base.Sort.{sort_by}
use context_ledger.Errors.{Result, err, ok, or_raise, not_found, ◌>>=◌, ◌>>◌}
use context_ledger.Privacy.{PrivacyScope, scope_in}
use context_ledger.Roles.{TenantContext, read_decisions, record_decisions}
use context_ledger.Versions.{FactVersion, VersionSnapshot, to_snapshot}
use context_ledger.Db.{
  Db, Entity, Fact, FactSource, ContextSnapshot, ContextSnapshotFact, Decision, DecisionFact,
  FactRevocation,
}
use context_ledger.Temporal.{as_known}
use context_ledger.Authorization.{require_permission}
use context_ledger.Visibility.{visible_privacy_scopes}
use context_ledger.EvidenceLinks.{get_version}
use context_ledger.Recording.{get_fact, get_source}
use context_ledger.Receipts.Document.{ReceiptContent, ReceiptDocument, receipt_document}
use context_ledger.Receipts.ReliedOn.{validate_relied_on}
unfoldable pub use Rows.*

pub record RecordDecision : Type 0 where
  pub snapshot_id : ℕ
  pub action : String
  pub outcome : ℕ
  pub relied_on : List ℕ
  pub rationale : Option String
  pub agent : Option String

-- Without the evidence that the code lists beside a fact that is shown.
pub record ReceiptFact : Type 0 where
  pub fact_version_id : ℕ
  pub position : ℕ
  pub relied_on : Bool
  pub redacted : Bool
  pub privacy_scope : PrivacyScope
  pub entity_type : Option String
  pub external_id : Option String
  pub property : Option String
  pub source_name : Option String
  pub version : Option VersionSnapshot
  pub ranking : Option ℕ
  pub revoked_at : Option ℕ

pub record DecisionReceipt : Type 0 where
  pub decision : Decision
  pub context : ContextSnapshot
  pub facts : List ReceiptFact
  pub integrity_verified : Bool

-- `_revocations`, as a lookup.
abbrev pub time_of : Option FactRevocation → Option ℕ
time_of none = none
time_of (some r) = some r.revoked_at

unfoldable pub revoked_at_of : Db → ℕ → ℕ → Option ℕ
revoked_at_of db o id = time_of (
    find? (λ (r : FactRevocation). r.organization_id == o && r.fact_version_id == id)
      db.revocations)

abbrev pub redacted_fact : List ℕ → SnapshotFactRow → ReceiptFact
redacted_fact relied_on row = record {
  fact_version_id = row.version.id;
  position = row.snapshot_fact.position;
  relied_on = contains row.version.id relied_on;
  redacted = true;
  privacy_scope = row.version.privacy_scope;
  entity_type = none;
  external_id = none;
  property = none;
  source_name = none;
  version = none;
  ranking = none;
  revoked_at = none;
}

abbrev pub shown_fact : Db → ℕ → List ℕ → ℕ → SnapshotFactRow → ReceiptFact
shown_fact db o relied_on known_at row = record {
  fact_version_id = row.version.id;
  position = row.snapshot_fact.position;
  relied_on = contains row.version.id relied_on;
  redacted = false;
  privacy_scope = row.version.privacy_scope;
  entity_type = some row.entity_type;
  external_id = some row.external_id;
  property = some row.property;
  source_name = some row.source_name;
  version = some (as_known (to_snapshot row.version) (some known_at));
  ranking = some row.snapshot_fact.ranking;
  revoked_at = revoked_at_of db o row.version.id;
}

unfoldable pub receipt_fact :
    Db → ℕ → List PrivacyScope → List ℕ → ℕ → SnapshotFactRow → ReceiptFact
receipt_fact db o visible relied_on known_at row =
    if scope_in visible row.version.privacy_scope
    then shown_fact db o relied_on known_at row
    else redacted_fact relied_on row

abbrev pub decision_row : TenantContext → ℕ → ℕ → RecordDecision → ContextSnapshot → Decision
decision_row ctx new_id now command snapshot = record {
  id = new_id;
  organization_id = ctx.organization_id;
  snapshot_id = snapshot.id;
  decided_by_user_id = ctx.user_id;
  agent = command.agent;
  action = command.action;
  outcome = command.outcome;
  rationale = command.rationale;
  decided_at = now;
  receipt_sha256 = 0;
}

-- The decision as a session reads it.
abbrev pub with_outcome : (ℕ → ℕ) → Decision → Decision
with_outcome loaded d = record d { outcome = loaded d.outcome }

abbrev pub decision_fact : ℕ → ℕ → ℕ → DecisionFact
decision_fact o decision_id version_id = record {
  organization_id = o;
  decision_id = decision_id;
  fact_version_id = version_id;
}

module _ (seal : ReceiptDocument → ℕ) (value_sha256 : ℕ → ℕ) where
  -- `(position, value_sha256(value))` under the version's id; a snapshot has a version once.
  abbrev pub sealed_fact : SnapshotFactRow → ℕ × (ℕ × ℕ)
  sealed_fact row = (row.version.id, (row.snapshot_fact.position, value_sha256 row.version.value))

  -- `_content`
  abbrev pub content : Decision → ContextSnapshot → List SnapshotFactRow → List ℕ → ReceiptContent
  content decision snapshot rows relied_on = record {
    organization_id = decision.organization_id;
    decision_id = decision.id;
    snapshot_id = snapshot.id;
    decided_at = decision.decided_at;
    decided_by_user_id = decision.decided_by_user_id;
    agent = decision.agent;
    action = decision.action;
    outcome = decision.outcome;
    rationale = decision.rationale;
    query = snapshot.query;
    valid_at = snapshot.valid_at;
    known_at = snapshot.known_at;
    embedding_model = snapshot.embedding_model;
    vector_search = snapshot.vector_search;
    privacy_scopes = snapshot.privacy_scopes;
    facts = map sealed_fact rows;
    relied_on = relied_on;
  }

  -- `receipt_hash(_content(…))`
  unfoldable pub receipt_hash : Decision → ContextSnapshot → List SnapshotFactRow → List ℕ → ℕ
  receipt_hash decision snapshot rows relied_on =
      seal (receipt_document (content decision snapshot rows relied_on))

  -- The rows that `record_decision` adds.
  unfoldable pub add_decision :
      Db
      → TenantContext
      → ℕ
      → ℕ
      → RecordDecision
      → ContextSnapshot
      → List SnapshotFactRow
      → List ℕ
      → Decision × Db
  add_decision db ctx new_id now command snapshot rows relied_on =
      let draft = decision_row ctx new_id now command snapshot in
      let decision = record draft { receipt_sha256 = receipt_hash draft snapshot rows relied_on } in
      (
        decision,
        record db {
          decisions = decision ∷ db.decisions;
          decision_facts =
              map (decision_fact ctx.organization_id new_id) relied_on ++ db.decision_facts;
        },
      )

  -- The transaction of `record_decision`.
  unfoldable pub store_decision :
      Db → TenantContext → ℕ → ℕ → RecordDecision → Result (Decision × Db)
  store_decision db ctx new_id now command = do
    let o = ctx.organization_id
    role ← require_permission db ctx record_decisions
    snapshot ← or_raise (get_snapshot db o command.snapshot_id) not_found
    let rows = snapshot_rows db o snapshot.id
    relied_on ← validate_relied_on command.relied_on (map version_id rows)
    ok (add_decision db ctx new_id now command snapshot rows relied_on)

  -- `receipt`, once the decision and its snapshot are read.
  unfoldable pub receipt_of :
      Db → ℕ → List PrivacyScope → Decision → ContextSnapshot → DecisionReceipt
  receipt_of db o visible decision snapshot =
      let rows = snapshot_rows db o snapshot.id in
      let relied_on = relied_on_of db o decision.id in
      record {
        decision = decision;
        context = snapshot;
        facts = map (receipt_fact db o visible relied_on snapshot.known_at) rows;
        integrity_verified =
            receipt_hash decision snapshot rows relied_on == decision.receipt_sha256;
      }

  -- `loaded` is what the session gets for an outcome that was stored in a JSONB column.
  unfoldable pub receipt : (ℕ → ℕ) → Db → TenantContext → ℕ → Result DecisionReceipt
  receipt loaded db ctx decision_id = do
    let o = ctx.organization_id
    role ← require_permission db ctx read_decisions
    decision ← or_raise (get_decision db o decision_id) not_found
    snapshot ← or_raise (get_snapshot db o decision.snapshot_id) not_found
    ok (
        receipt_of db o (visible_privacy_scopes role (ctx.max_privacy_scope ∷ []))
          (with_outcome loaded decision) snapshot)

  abbrev pub then_receipt :
      Db → TenantContext → Result (Decision × Db) → Result DecisionReceipt × Db
  then_receipt db ctx (err raised) = (err raised, db)
  then_receipt db ctx (ok (decision, db')) = (receipt (λ outcome. outcome) db' ctx decision.id, db')

  -- What `record_decision` returns or raises, and the database after it: the receipt is read after
  -- the decision was committed, by the same session, which still holds the decision as it was written
  -- (`expire_on_commit=False`).
  unfoldable pub record_decision :
      Db → TenantContext → ℕ → ℕ → RecordDecision → Result DecisionReceipt × Db
  record_decision db ctx new_id now command =
      then_receipt db ctx (store_decision db ctx new_id now command)

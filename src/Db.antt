-- ===== src/Db.antt =====
-- The database: one table for each model of backend/app/models that the modelled services read or
-- write, as a list of rows. A row that is inserted stands in front; no query relies on the order
-- of rows, but those that sort. Identifiers are numbers, and a text that is only compared is a
-- `String`. `updated_at`, `created_at` and the descriptive columns that no rule reads are left out.
use Prim.Native.String.{String}
use context_ledger.Base.{ℕ, Bool, Option, List}
use context_ledger.Privacy.{PrivacyScope}
use context_ledger.Roles.{MembershipRole}
use context_ledger.Versions.{FactVersion}

pub record User : Type 0 where
  pub id : ℕ
  pub is_active : Bool

pub record Organization : Type 0 where
  pub id : ℕ
  pub slug : String
  pub name : String

-- The table has at most one row for an organization and a user.
pub record OrganizationMembership : Type 0 where
  pub organization_id : ℕ
  pub user_id : ℕ
  pub role : MembershipRole

pub record FactSource : Type 0 where
  pub id : ℕ
  pub organization_id : ℕ
  pub name : String
  pub default_authority : ℕ

pub record Entity : Type 0 where
  pub id : ℕ
  pub organization_id : ℕ
  pub entity_type : String
  pub external_id : String

pub record Fact : Type 0 where
  pub id : ℕ
  pub organization_id : ℕ
  pub entity_id : ℕ
  pub property : String

pub data EvidenceRelation : Type 0 where
  supports contradicts : EvidenceRelation

pub record Evidence : Type 0 where
  pub id : ℕ
  pub organization_id : ℕ
  pub source_id : ℕ
  pub content_sha256 : String
  pub privacy_scope : PrivacyScope

pub record FactVersionEvidence : Type 0 where
  pub organization_id : ℕ
  pub fact_version_id : ℕ
  pub evidence_id : ℕ
  pub relation : EvidenceRelation
  pub linked_by_user_id : ℕ

pub data ContradictionStatus : Type 0 where
  open_status resolved dismissed : ContradictionStatus

pub data ContradictionKind : Type 0 where
  value_conflict_kind semantic : ContradictionKind

pub record Contradiction : Type 0 where
  pub id : ℕ
  pub organization_id : ℕ
  pub entity_id : ℕ
  pub left_version_id : ℕ
  pub right_version_id : ℕ
  pub kind : ContradictionKind
  pub preferred_version_id : Option ℕ
  pub privacy_scope : PrivacyScope
  pub status : ContradictionStatus
  pub resolution_note : Option String
  pub resolved_by_user_id : Option ℕ
  pub resolved_at : Option ℕ

pub record FactRevocation : Type 0 where
  pub id : ℕ
  pub organization_id : ℕ
  pub fact_version_id : ℕ
  pub reason : String
  pub revoked_by_user_id : ℕ
  pub agent_client_id : Option ℕ
  pub revoked_at : ℕ

-- `used` or `unavailable`.
pub data VectorSearch : Type 0 where
  used unavailable : VectorSearch

pub record ContextSnapshot : Type 0 where
  pub id : ℕ
  pub organization_id : ℕ
  pub captured_by_user_id : ℕ
  pub query : String
  pub valid_at : ℕ
  pub known_at : ℕ
  pub embedding_model : ℕ
  pub vector_search : VectorSearch
  pub privacy_scopes : List PrivacyScope
  pub parameters : ℕ

pub record Decision : Type 0 where
  pub id : ℕ
  pub organization_id : ℕ
  pub snapshot_id : ℕ
  pub decided_by_user_id : ℕ
  pub agent : Option String
  pub action : String
  pub outcome : ℕ
  pub rationale : Option String
  pub decided_at : ℕ
  pub receipt_sha256 : ℕ

pub record ContextSnapshotFact : Type 0 where
  pub organization_id : ℕ
  pub snapshot_id : ℕ
  pub fact_version_id : ℕ
  pub position : ℕ
  pub ranking : ℕ

pub record DecisionFact : Type 0 where
  pub organization_id : ℕ
  pub decision_id : ℕ
  pub fact_version_id : ℕ

pub record RevocationImpact : Type 0 where
  pub organization_id : ℕ
  pub revocation_id : ℕ
  pub decision_id : ℕ
  pub snapshot_id : ℕ
  pub fact_version_id : ℕ
  pub relied_on : Bool

pub record Db : Type 0 where
  pub users : List User
  pub organizations : List Organization
  pub memberships : List OrganizationMembership
  pub sources : List FactSource
  pub entities : List Entity
  pub facts : List Fact
  pub versions : List FactVersion
  pub evidence : List Evidence
  pub links : List FactVersionEvidence
  pub contradictions : List Contradiction
  pub revocations : List FactRevocation
  pub decisions : List Decision
  pub snapshots : List ContextSnapshot
  pub snapshot_facts : List ContextSnapshotFact
  pub decision_facts : List DecisionFact
  pub impacts : List RevocationImpact

-- ===== src/Receipts/Document.antt =====
-- What a receipt's hash covers: `ReceiptContent` and `receipt_document` of
-- backend/app/domain/decisions.py. Instants have a time zone.
use Prim.Native.String.{String}
use context_ledger.Base.{ℕ, Bool, Option, List, map, contains}
use context_ledger.Base.Sort.{sort_by}
use context_ledger.Db.{VectorSearch}
use context_ledger.Privacy.{PrivacyScope, public, internal, confidential, restricted}

pub record ReceiptContent : Type 0 where
  pub organization_id : ℕ
  pub decision_id : ℕ
  pub snapshot_id : ℕ
  pub decided_at : ℕ
  pub decided_by_user_id : ℕ
  pub agent : Option String
  pub action : String
  pub outcome : ℕ
  pub rationale : Option String
  pub query : String
  pub valid_at : ℕ
  pub known_at : ℕ
  pub embedding_model : ℕ
  pub vector_search : VectorSearch
  pub privacy_scopes : List PrivacyScope
  pub facts : List (ℕ × (ℕ × ℕ))
  pub relied_on : List ℕ

pub record DocumentFact : Type 0 where
  pub fact_version_id : ℕ
  pub position : ℕ
  pub value_sha256 : ℕ
  pub relied_on : Bool

pub record ReceiptDocument : Type 0 where
  pub organization_id : ℕ
  pub decision_id : ℕ
  pub decided_at : ℕ
  pub decided_by_user_id : ℕ
  pub agent : Option String
  pub action : String
  pub outcome : ℕ
  pub rationale : Option String
  pub snapshot_id : ℕ
  pub query : String
  pub valid_at : ℕ
  pub known_at : ℕ
  pub embedding_model : ℕ
  pub vector_search : VectorSearch
  pub privacy_scopes : List PrivacyScope
  pub facts : List DocumentFact

-- The scopes in the order of their names.
abbrev pub name_order : PrivacyScope → ℕ
name_order confidential = 0
name_order internal = 1
name_order public = 2
name_order restricted = 3

abbrev pub fact_position : ℕ × (ℕ × ℕ) → ℕ
fact_position (version_id, (position, digest)) = position

abbrev pub document_fact : List ℕ → ℕ × (ℕ × ℕ) → DocumentFact
document_fact relied_on (version_id, (position, digest)) = record {
  fact_version_id = version_id;
  position = position;
  value_sha256 = digest;
  relied_on = contains version_id relied_on;
}

unfoldable pub receipt_document : ReceiptContent → ReceiptDocument
receipt_document c = record {
  organization_id = c.organization_id;
  decision_id = c.decision_id;
  decided_at = c.decided_at;
  decided_by_user_id = c.decided_by_user_id;
  agent = c.agent;
  action = c.action;
  outcome = c.outcome;
  rationale = c.rationale;
  snapshot_id = c.snapshot_id;
  query = c.query;
  valid_at = c.valid_at;
  known_at = c.known_at;
  embedding_model = c.embedding_model;
  vector_search = c.vector_search;
  privacy_scopes = sort_by name_order c.privacy_scopes;
  facts = map (document_fact c.relied_on) (sort_by fact_position c.facts);
}

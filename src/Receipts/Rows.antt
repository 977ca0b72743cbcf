-- ===== src/Receipts/Rows.antt =====
-- What a receipt is made of: the queries of backend/app/repositories/decisions.py.
use Prim.Native.String.{String}
use context_ledger.Base.{ℕ, Bool, ◌&&◌, Option, none, some, List, [], ◌∷◌, map, filter, find?, ◌==◌}
use context_ledger.Base.Sort.{sort_by}
use context_ledger.Versions.{FactVersion}
use context_ledger.Db.{
  Db, Entity, Fact, FactSource, ContextSnapshot, ContextSnapshotFact, Decision, DecisionFact,
}
use context_ledger.EvidenceLinks.{get_version}
use context_ledger.Recording.{get_fact, get_source}

pub record SnapshotFactRow : Type 0 where
  pub snapshot_fact : ContextSnapshotFact
  pub version : FactVersion
  pub property : String
  pub entity_type : String
  pub external_id : String
  pub source_name : String

unfoldable pub get_snapshot : Db → ℕ → ℕ → Option ContextSnapshot
get_snapshot db o id =
    find? (λ (s : ContextSnapshot). s.organization_id == o && s.id == id) db.snapshots

unfoldable pub get_decision : Db → ℕ → ℕ → Option Decision
get_decision db o id = find? (λ (d : Decision). d.organization_id == o && d.id == id) db.decisions

unfoldable pub get_entity : Db → ℕ → ℕ → Option Entity
get_entity db o id = find? (λ (e : Entity). e.organization_id == o && e.id == id) db.entities

-- The joins of `snapshot_rows`, one table after another, each by its key.
abbrev pub with_source :
    ContextSnapshotFact → FactVersion → Fact → Entity → Option FactSource → Option SnapshotFactRow
with_source f v fact entity none = none
with_source f v fact entity (some source) = some record {
  snapshot_fact = f;
  version = v;
  property = fact.property;
  entity_type = entity.entity_type;
  external_id = entity.external_id;
  source_name = source.name;
}

abbrev pub with_entity :
    Db → ContextSnapshotFact → FactVersion → Fact → Option Entity → Option SnapshotFactRow
with_entity db f v fact none = none
with_entity db f v fact (some entity) =
    with_source f v fact entity (get_source db v.organization_id v.source_id)

abbrev pub with_fact : Db → ContextSnapshotFact → FactVersion → Option Fact → Option SnapshotFactRow
with_fact db f v none = none
with_fact db f v (some fact) =
    with_entity db f v fact (get_entity db fact.organization_id fact.entity_id)

abbrev pub with_version : Db → ContextSnapshotFact → Option FactVersion → Option SnapshotFactRow
with_version db f none = none
with_version db f (some v) = with_fact db f v (get_fact db v.organization_id v.fact_id)

unfoldable pub join_row : Db → ContextSnapshotFact → Option SnapshotFactRow
join_row db f = with_version db f (get_version db f.organization_id f.fact_version_id)

abbrev pub keep_row : Option SnapshotFactRow → List SnapshotFactRow → List SnapshotFactRow
keep_row none rows = rows
keep_row (some row) rows = row ∷ rows

unfoldable pub join_rows : Db → List ContextSnapshotFact → List SnapshotFactRow
join_rows db [] = []
join_rows db (f ∷ fs) = keep_row (join_row db f) (join_rows db fs)

abbrev pub position_of : SnapshotFactRow → ℕ
position_of row = row.snapshot_fact.position

abbrev pub in_snapshot : ℕ → ℕ → ContextSnapshotFact → Bool
in_snapshot o snapshot_id f = f.organization_id == o && f.snapshot_id == snapshot_id

unfoldable pub snapshot_rows : Db → ℕ → ℕ → List SnapshotFactRow
snapshot_rows db o snapshot_id =
    sort_by position_of (join_rows db (filter (in_snapshot o snapshot_id) db.snapshot_facts))

abbrev pub version_id : SnapshotFactRow → ℕ
version_id row = row.version.id

abbrev pub is_fact_of : ℕ → ℕ → DecisionFact → Bool
is_fact_of o decision_id f = f.organization_id == o && f.decision_id == decision_id

abbrev pub cited_id : DecisionFact → ℕ
cited_id f = f.fact_version_id

unfoldable pub relied_on_of : Db → ℕ → ℕ → List ℕ
relied_on_of db o decision_id = map cited_id (filter (is_fact_of o decision_id) db.decision_facts)

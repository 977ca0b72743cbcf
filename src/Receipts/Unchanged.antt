-- ===== src/Receipts/Unchanged.antt =====
-- Recording a version changes no receipt (backend/app/services/facts.py,
-- backend/app/services/decisions.py).
pub mod Closed
pub mod Joined
use context_ledger.Base.{
  ℕ, ◌<◌, ◌≡◌, ◌≢◌, refl, sym, ap, ◌∙◌, Bool, true, false, Option, none, some, List, [], ◌∷◌, map,
  filter, find?, All, contains, ◌&&◌, Option-cases, ◌==◌, if◌then◌else◌, arith, Bool-cases, inl,
  inr,
}
use context_ledger.Base.Sort.{sort_by}
use context_ledger.Base.Every.{All-sort_by, All-filter}
use context_ledger.Errors.{ok, Result, Result-cases}
use context_ledger.Privacy.{PrivacyScope, scope_in}
use context_ledger.Roles.{TenantContext, read_decisions}
use context_ledger.Versions.{FactVersion, VersionSnapshot, to_snapshot}
use context_ledger.Temporal.{as_known}
use context_ledger.Db.{Db, ContextSnapshot, ContextSnapshotFact, Decision}
use context_ledger.Authorization.{require_permission, get_user}
use context_ledger.Recording.{Command, Supply, record_version}
use context_ledger.Recording.Tables.{Kept, record_version-Kept}
use context_ledger.Recording.Service.{record_version-Recorded}
use context_ledger.Receipts.Document.{ReceiptDocument, receipt_document}
use context_ledger.Receipts.{
  with_outcome, SnapshotFactRow, ReceiptFact, DecisionReceipt, position_of, in_snapshot,
  snapshot_rows, join_rows, relied_on_of, revoked_at_of, receipt_fact, sealed_fact, content,
  receipt_hash, receipt_of, receipt, get_decision, get_snapshot,
}
use context_ledger.Receipts.Unchanged.Closed.{IsEndKnown, IsClosing, IsAppended, append-IsAppended}
use context_ledger.Receipts.Unchanged.Joined.{
  IsUnused, find?-All, close_in, joined-later, sorted-closed, join_rows-All,
}

-- `receipt_fact`, by what it reads of the version.
abbrev fact_from :
    List PrivacyScope
    → List ℕ
    → SnapshotFactRow
    → PrivacyScope
    → ℕ
    → VersionSnapshot
    → Option ℕ
    → ReceiptFact
fact_from visible relied_on r scope id known revoked =
    if scope_in visible scope
    then record {
      fact_version_id = id;
      position = r.snapshot_fact.position;
      relied_on = contains id relied_on;
      redacted = false;
      privacy_scope = scope;
      entity_type = some r.entity_type;
      external_id = some r.external_id;
      property = some r.property;
      source_name = some r.source_name;
      version = some known;
      ranking = some r.snapshot_fact.ranking;
      revoked_at = revoked;
    }
    else record {
      fact_version_id = id;
      position = r.snapshot_fact.position;
      relied_on = contains id relied_on;
      redacted = true;
      privacy_scope = scope;
      entity_type = none;
      external_id = none;
      property = none;
      source_name = none;
      version = none;
      ranking = none;
      revoked_at = none;
    }

module _ (seal : ReceiptDocument → ℕ) (value_sha256 : ℕ → ℕ) (version_id fact_id entity_id t : ℕ)
    (db db' : Db) (row : FactVersion) (g : FactVersion → FactVersion) (closing : IsClosing t g)
    (row_id : row.id ≡ version_id) (written : db'.versions ≡ row ∷ map g db.versions)
    (kept : Kept entity_id fact_id db db') (unused : IsUnused version_id fact_id entity_id db)
    (ends : All IsEndKnown db.versions) where
  rows-later : (o i : ℕ) → snapshot_rows db' o i ≡ map (close_in g) (snapshot_rows db o i)
  unfolding snapshot_rows
  rows-later o i =
      let fs = filter (in_snapshot o i) db.snapshot_facts in
      ap (λ facts. sort_by position_of (join_rows db' (filter (in_snapshot o i) facts)))
        kept.snapshot_facts
      ∙ (ap (sort_by position_of) (
            joined-later version_id fact_id entity_id t db db' row g closing row_id written kept
              unused fs
              (All-filter (λ (f : ContextSnapshotFact). f.fact_version_id ≢ version_id)
                (λ (f : ContextSnapshotFact). f.fact_version_id ≢ version_id) (in_snapshot o i)
                db.snapshot_facts (λ f differ kept_row. differ) unused.versions))
          ∙ sorted-closed version_id fact_id entity_id t db db' row g closing row_id written kept
              unused (join_rows db fs))

  rows-EndKnown :
      (o i : ℕ) → All (λ (r : SnapshotFactRow). IsEndKnown r.version) (snapshot_rows db o i)
  unfolding snapshot_rows
  rows-EndKnown o i =
      All-sort_by (λ (r : SnapshotFactRow). IsEndKnown r.version) position_of _
        (join_rows-All IsEndKnown db ends (filter (in_snapshot o i) db.snapshot_facts))

  revoked-later : (o i : ℕ) → revoked_at_of db' o i ≡ revoked_at_of db o i
  unfolding revoked_at_of
  revoked-later o i = rw kept.revocations refl

  fact-later :
      (o : ℕ) (visible : List PrivacyScope) (relied_on : List ℕ) (k : ℕ) (r : SnapshotFactRow)
      → k < t
      → IsEndKnown r.version
      → receipt_fact db' o visible relied_on k (close_in g r)
        ≡ receipt_fact db o visible relied_on k r
  unfolding receipt_fact
  fact-later o visible relied_on k r before known =
      let v = r.version in
      let scope = closing.scope v in
      let id = closing.id v in
      let revoked = ap (revoked_at_of db' o) id ∙ revoked-later o v.id in
      let past = closing.past v k known before in
      λ i. fact_from visible relied_on r (scope i) (id i) (past i) (revoked i)

  facts-later :
      (o : ℕ) (visible : List PrivacyScope) (relied_on : List ℕ) (k : ℕ)
      (rows : List SnapshotFactRow)
      → k < t
      → All (λ (r : SnapshotFactRow). IsEndKnown r.version) rows
      → map (receipt_fact db' o visible relied_on k) (map (close_in g) rows)
        ≡ map (receipt_fact db o visible relied_on k) rows
  facts-later o visible relied_on k [] before all = refl
  facts-later o visible relied_on k (r ∷ rows) before (known, all) =
      rw (fact-later o visible relied_on k r before known) (
        ap (λ rest. receipt_fact db o visible relied_on k r ∷ rest)
          (facts-later o visible relied_on k rows before all))

  sealed-later :
      (rows : List SnapshotFactRow)
      → map (sealed_fact seal value_sha256) (map (close_in g) rows)
        ≡ map (sealed_fact seal value_sha256) rows
  sealed-later [] = refl
  sealed-later (r ∷ rows) = rw (closing.id r.version) (
      rw (closing.value r.version)
        (ap (λ rest. sealed_fact seal value_sha256 r ∷ rest) (sealed-later rows)))

  ids-later : (o i : ℕ) → relied_on_of db' o i ≡ relied_on_of db o i
  unfolding relied_on_of
  ids-later o i = rw kept.decision_facts refl

  hash-later :
      (o : ℕ) (d : Decision) (x : ContextSnapshot)
      → receipt_hash seal value_sha256 d x (snapshot_rows db' o x.id) (relied_on_of db' o d.id)
        ≡ receipt_hash seal value_sha256 d x (snapshot_rows db o x.id) (relied_on_of db o d.id)
  unfolding receipt_hash
  hash-later o d x =
      let rows = snapshot_rows db o x.id in
      let ids = relied_on_of db o d.id in
      let row_path = rows-later o x.id in
      let id_path = ids-later o d.id in
      let facts = sealed-later rows in
      (λ i. receipt_hash seal value_sha256 d x (row_path i) (id_path i)) ∙ (λ i.
        seal
          (receipt_document (record (content seal value_sha256 d x rows ids) { facts = facts i })))

  receipt-later :
      (o : ℕ) (visible : List PrivacyScope) (d : Decision) (x : ContextSnapshot)
      → x.known_at < t
      → receipt_of seal value_sha256 db' o visible d x
        ≡ receipt_of seal value_sha256 db o visible d x
  unfolding receipt_of
  receipt-later o visible d x before =
      let rows = snapshot_rows db o x.id in
      let ids = relied_on_of db o d.id in
      let row_path = rows-later o x.id in
      let id_path = ids-later o d.id in
      let shown = facts-later o visible ids x.known_at rows before (rows-EndKnown o x.id) in
      let facts =
        (λ i. map (receipt_fact db' o visible (id_path i) x.known_at) (row_path i)) ∙ shown in
      let verified = ap (λ h. h == d.receipt_sha256) (hash-later o d x) in
      λ i. record { decision = d; context = x; facts = facts i; integrity_verified = verified i }

require-later :
    (db db' : Db) (entity_id fact_id : ℕ) (reader : TenantContext)
    → Kept entity_id fact_id db db'
    → require_permission db' reader read_decisions ≡ require_permission db reader read_decisions
unfolding require_permission get_user
require-later db db' entity_id fact_id reader kept = rw kept.users (rw kept.memberships refl)

found-known :
    (o i t : ℕ) (snapshots : List ContextSnapshot) (x : ContextSnapshot)
    → find? (λ (y : ContextSnapshot). y.organization_id == o && y.id == i) snapshots ≡ some x
    → All (λ (y : ContextSnapshot). y.known_at < t) snapshots
    → x.known_at < t
found-known o i t snapshots x h all =
    find?-All (λ (y : ContextSnapshot). y.known_at < t) _ snapshots x h all

decision-later :
    (db db' : Db) (entity_id fact_id o i : ℕ)
    → Kept entity_id fact_id db db'
    → get_decision db' o i ≡ get_decision db o i
unfolding get_decision
decision-later db db' entity_id fact_id o i kept = rw kept.decisions refl

snapshot-later :
    (db db' : Db) (entity_id fact_id o i : ℕ)
    → Kept entity_id fact_id db db'
    → get_snapshot db' o i ≡ get_snapshot db o i
unfolding get_snapshot
snapshot-later db db' entity_id fact_id o i kept = rw kept.snapshots refl

snapshot-past :
    (db : Db) (o i t : ℕ) (x : ContextSnapshot)
    → get_snapshot db o i ≡ some x
    → All (λ (y : ContextSnapshot). y.known_at < t) db.snapshots
    → x.known_at < t
unfolding get_snapshot
snapshot-past db o i t x h all = found-known o i t db.snapshots x h all

-- If every version's end and the time it was learned are given together, no row refers to an id that
-- is given to a new one, and every snapshot shows what was known before the new version's transaction
-- time, then recording a version changes no receipt: what any reader gets for any decision is the
-- same as before, the facts as they were known, their marks, the hash's verification, or the error.
pub record_version-receipt :
    (seal : ReceiptDocument → ℕ) (value_sha256 loaded : ℕ → ℕ) (db db' : Db)
    (ctx reader : TenantContext) (s : Supply) (c : Command) (row : FactVersion) (decision_id : ℕ)
    → All IsEndKnown db.versions
    → IsUnused s.version_id s.fact_id s.entity_id db
    → All (λ (x : ContextSnapshot). x.known_at < row.recorded_at) db.snapshots
    → record_version db ctx s c ≡ ok (row, db')
    → receipt seal value_sha256 loaded db' reader decision_id
      ≡ receipt seal value_sha256 loaded db reader decision_id
unfolding receipt
record_version-receipt seal value_sha256 loaded db db' ctx reader s c row decision_id ends unused
      before h =
    let kept = record_version-Kept db db' ctx s c row h in
    let r = record_version-Recorded db db' ctx s c row h in
    let (row_id, (g, closing, written)) =
      append-IsAppended r.before r.after ctx s c r.window r.observed r.authority r.entity r.fact row
        r.written in
    let all : db'.versions ≡ row ∷ map g db.versions =
      r.after_same ∙ written ∙ ap (λ vs. row ∷ map g vs) r.before_same in
    let o = reader.organization_id in
    rw (require-later db db' s.entity_id s.fact_id reader kept)
      (elim (Result-cases (require_permission db reader read_decisions)) [
        | inl (e, refused) ↦ rw refused refl
        | inr (role, allowed) ↦ rw allowed (
            rw (decision-later db db' s.entity_id s.fact_id o decision_id kept)
              (elim (Option-cases (get_decision db o decision_id)) [
                | inl missing ↦ rw missing refl
                | inr (d, ed) ↦ rw ed (
                    rw (snapshot-later db db' s.entity_id s.fact_id o d.snapshot_id kept)
                      (elim (Option-cases (get_snapshot db o d.snapshot_id)) [
                        | inl missing ↦ rw missing refl
                        | inr (x, ex) ↦ rw ex (
                            ap ok (
                              receipt-later seal value_sha256 s.version_id s.fact_id s.entity_id
                                row.recorded_at db db' row g closing row_id all kept unused ends o _
                                (with_outcome loaded d) x
                                (snapshot-past db o d.snapshot_id row.recorded_at x ex before)))
                      ]))
              ]))
      ])

-- ===== src/Receipts/Sealed.antt =====
-- A decision that was recorded has a receipt that verifies (backend/app/services/decisions.py).
use context_ledger.Base.{
  ℕ, ◌≡◌, ◌≢◌, refl, ap, not, ◌&&◌, some, List, [], ◌∷◌, ◌++◌, map, filter, find?, any, length, ltb,
  contains, All, ◌==◌, ==→≡, ==_refl, arith,
}
use context_ledger.Base.Sort.{sort_by}
use context_ledger.Errors.{
  ok, or_raise, not_found, validation_failed, >>=-elim, >>-elim, or_raise-eq-ok,
}
use context_ledger.Privacy.{PrivacyScope}
use context_ledger.Roles.{MembershipRole, TenantContext, read_decisions, record_decisions}
use context_ledger.Db.{Db, ContextSnapshot, ContextSnapshotFact, Decision, DecisionFact}
use context_ledger.Authorization.{require_permission}
use context_ledger.Visibility.{visible_privacy_scopes}
use context_ledger.EvidenceLinks.{get_version}
use context_ledger.Recording.{get_fact, get_source}
use context_ledger.Receipts.Document.{ReceiptDocument}
use context_ledger.Receipts.ReliedOn.Exact.{contains-sorted}
use context_ledger.Receipts.ReliedOn.{validate_relied_on, has_duplicate, max_relied_on}
use context_ledger.Receipts.{
  RecordDecision, DecisionReceipt, get_snapshot, get_decision, get_entity, join_row, join_rows,
  snapshot_rows, in_snapshot, version_id, is_fact_of, cited_id, decision_fact, add_decision,
  store_decision, receipt_of, receipt, position_of, with_outcome,
}

-- What `validate_relied_on` returns has the ids that it was given.
pub validate_relied_on-contains :
    (ids snapshot_facts valid : List ℕ) (i : ℕ)
    → validate_relied_on ids snapshot_facts ≡ ok valid
    → contains i valid ≡ contains i ids
unfolding validate_relied_on
validate_relied_on-contains ids snapshot_facts valid i h0 =
    >>-elim (has_duplicate ids) validation_failed _ h0 λ distinct h1.
      >>-elim (ltb max_relied_on (length ids)) validation_failed _ h1 λ short h2.
        >>-elim (any (λ j. not (contains j snapshot_facts)) ids) validation_failed _ h2
          λ known h3. ground (arith, h3, contains-sorted i ids)

module _ (o new_id : ℕ) where
  filter-absent :
      (facts : List DecisionFact)
      → All (λ (f : DecisionFact). f.decision_id ≢ new_id) facts
      → filter (is_fact_of o new_id) facts ≡ []
  filter-absent [] fresh = refl
  filter-absent (f ∷ fs) (differ, fresh) = ground (arith, differ, filter-absent fs fresh)

  -- The rows of a new decision are those that were added for it.
  pub relied-new :
      (ids : List ℕ) (facts : List DecisionFact)
      → All (λ (f : DecisionFact). f.decision_id ≢ new_id) facts
      → map cited_id (filter (is_fact_of o new_id) (map (decision_fact o new_id) ids ++ facts))
        ≡ ids
  relied-new [] facts fresh = ap (map cited_id) (filter-absent facts fresh)
  relied-new (i ∷ ids) facts fresh =
      rw (==_refl o) (rw (==_refl new_id) (ap (λ rest. i ∷ rest) (relied-new ids facts fresh)))

-- Rows that each table has as before are joined as before.
pub join_rows-same :
    (db db' : Db) (fs : List ContextSnapshotFact)
    → ((f : ContextSnapshotFact) → join_row db' f ≡ join_row db f)
    → join_rows db' fs ≡ join_rows db fs
unfolding join_rows
join_rows-same db db' [] same = refl
join_rows-same db db' (f ∷ fs) same = rw (same f) (rw (join_rows-same db db' fs same) refl)

find-snapshot :
    (o i : ℕ) (snapshots : List ContextSnapshot) (s : ContextSnapshot)
    → find? (λ (x : ContextSnapshot). x.organization_id == o && x.id == i) snapshots ≡ some s
    → s.id ≡ i
find-snapshot o i [] s h = cc
find-snapshot o i (x ∷ xs) s h = ground (arith, ==→≡ x.id i, find-snapshot o i xs s)

pub get_snapshot-same :
    (db : Db) (o i : ℕ) (s : ContextSnapshot) → get_snapshot db o i ≡ some s → s.id ≡ i
unfolding get_snapshot
get_snapshot-same db o i s h = find-snapshot o i db.snapshots s h

module _ (seal : ReceiptDocument → ℕ) (value_sha256 : ℕ → ℕ) where
  -- What was stored with a decision.
  pub record Stored (db db' : Db) (ctx : TenantContext) (new_id now : ℕ) (command : RecordDecision)
      (decision : Decision) : Type 0 where
    pub snapshot : ContextSnapshot
    pub relied_on : List ℕ
    pub found : get_snapshot db ctx.organization_id command.snapshot_id ≡ some snapshot
    pub valid :
        validate_relied_on command.relied_on
          (map version_id (snapshot_rows db ctx.organization_id snapshot.id))
        ≡ ok relied_on
    pub added :
        add_decision seal value_sha256 db ctx new_id now command snapshot
          (snapshot_rows db ctx.organization_id snapshot.id)
          relied_on
        ≡ (decision, db')

  pub store_decision-Stored :
      (db db' : Db) (ctx : TenantContext) (new_id now : ℕ) (command : RecordDecision)
      (decision : Decision)
      → store_decision seal value_sha256 db ctx new_id now command ≡ ok (decision, db')
      → Stored db db' ctx new_id now command decision
  unfolding store_decision
  store_decision-Stored db db' ctx new_id now command decision h0 =
      let o = ctx.organization_id in
      >>=-elim (require_permission db ctx record_decisions) _ h0 λ role er h1.
        >>=-elim (or_raise (get_snapshot db o command.snapshot_id) not_found) _ h1 λ snapshot es h2.
          >>=-elim
            (validate_relied_on command.relied_on (map version_id (snapshot_rows db o snapshot.id)))
            _ h2
            λ relied_on ev h3. record {
              snapshot = snapshot;
              relied_on = relied_on;
              found = or_raise-eq-ok _ not_found es;
              valid = ev;
              added = cc;
            }

  -- A reader's receipt, and what it is made of.
  pub record Read (loaded : ℕ → ℕ) (db : Db) (ctx : TenantContext) (decision_id : ℕ)
      (r : DecisionReceipt) : Type 0 where
    pub role : MembershipRole
    pub allowed : require_permission db ctx read_decisions ≡ ok role
    pub visible : List PrivacyScope
    pub scopes : visible ≡ visible_privacy_scopes role (ctx.max_privacy_scope ∷ [])
    pub decision : Decision
    pub snapshot : ContextSnapshot
    pub decision_found : get_decision db ctx.organization_id decision_id ≡ some decision
    pub snapshot_found : get_snapshot db ctx.organization_id decision.snapshot_id ≡ some snapshot
    pub read :
        receipt_of seal value_sha256 db ctx.organization_id visible
          (with_outcome loaded decision)
          snapshot
        ≡ r

  pub receipt-Read :
      (loaded : ℕ → ℕ) (db : Db) (ctx : TenantContext) (decision_id : ℕ) (r : DecisionReceipt)
      → receipt seal value_sha256 loaded db ctx decision_id ≡ ok r
      → Read loaded db ctx decision_id r
  unfolding receipt
  receipt-Read loaded db ctx decision_id r h0 =
      let o = ctx.organization_id in
      >>=-elim (require_permission db ctx read_decisions) _ h0 λ role er h1.
        >>=-elim (or_raise (get_decision db o decision_id) not_found) _ h1 λ decision ed h2.
          >>=-elim (or_raise (get_snapshot db o decision.snapshot_id) not_found) _ h2
            λ snapshot es h3. record {
              role = role;
              allowed = er;
              scopes = refl;
              visible = visible_privacy_scopes role (ctx.max_privacy_scope ∷ []);
              decision = decision;
              snapshot = snapshot;
              decision_found = or_raise-eq-ok _ not_found ed;
              snapshot_found = or_raise-eq-ok _ not_found es;
              read = cc;
            }

  module _ (db : Db) (ctx : TenantContext) (new_id now : ℕ) (command : RecordDecision)
      (snapshot : ContextSnapshot) (relied_on : List ℕ) where
    unfoldable pub stored : Decision × Db
    stored =
        add_decision seal value_sha256 db ctx new_id now command snapshot
          (snapshot_rows db ctx.organization_id snapshot.id) relied_on

    pub stored-rows : (o i : ℕ) → snapshot_rows stored.1 o i ≡ snapshot_rows db o i
    unfolding stored add_decision snapshot_rows join_row get_version get_fact get_entity get_source
    stored-rows o i =
        ap (sort_by position_of)
          (join_rows-same db stored.1 (filter (in_snapshot o i) db.snapshot_facts) (λ f. refl))

-- ===== src/Receipts/Verified.antt =====
-- Reading the receipt of a decision that was just recorded (backend/app/services/decisions.py).
use context_ledger.Base.{
  ℕ, ◌≡◌, ◌≢◌, refl, sym, ap, subst, ◌∙◌, true, some, List, contains, All, ==_refl, Bool-cases, inl,
  inr,
}
use context_ledger.Base.Every.{All-map, All-every}
use context_ledger.Errors.{ok}
use context_ledger.Privacy.{PrivacyScope, scope_in}
use context_ledger.Roles.{TenantContext}
use context_ledger.Db.{Db, ContextSnapshot, Decision, DecisionFact}
use context_ledger.Receipts.Document.{ReceiptDocument}
use context_ledger.Receipts.{
  RecordDecision, SnapshotFactRow, ReceiptFact, DecisionReceipt, get_snapshot, get_decision,
  relied_on_of, receipt_fact, receipt_hash, add_decision, store_decision, receipt_of, receipt,
  with_outcome,
}
use context_ledger.Receipts.Sealed.{
  store_decision-Stored, Read, receipt-Read, stored, stored-rows, relied-new, get_snapshot-same,
  validate_relied_on-contains,
}

-- A fact of a receipt is marked exactly when its version is one of those given.
abbrev pub IsMarked : List ℕ → ReceiptFact → Type 0
IsMarked relied_on f = f.relied_on ≡ contains f.fact_version_id relied_on

receipt_fact-IsMarked :
    (db : Db) (o : ℕ) (visible : List PrivacyScope) (ids relied_on : List ℕ) (known_at : ℕ)
    (row : SnapshotFactRow)
    → ((i : ℕ) → contains i ids ≡ contains i relied_on)
    → IsMarked relied_on (receipt_fact db o visible ids known_at row)
unfolding receipt_fact
receipt_fact-IsMarked db o visible ids relied_on known_at row same =
    elim (Bool-cases (scope_in visible row.version.privacy_scope)) [
      | inl shown ↦ rw shown (same row.version.id)
      | inr hidden ↦ rw hidden (same row.version.id)
    ]

module _ (seal : ReceiptDocument → ℕ) (value_sha256 : ℕ → ℕ) where
  module _ (db : Db) (ctx : TenantContext) (new_id now : ℕ) (command : RecordDecision)
      (snapshot : ContextSnapshot) (relied_on : List ℕ) where
    -- The database after the decision was stored.
    abbrev pub later : Db
    later = (stored seal value_sha256 db ctx new_id now command snapshot relied_on).1

    abbrev pub decision : Decision
    decision = (stored seal value_sha256 db ctx new_id now command snapshot relied_on).0

    relied-stored :
        All (λ (f : DecisionFact). f.decision_id ≢ new_id) db.decision_facts
        → relied_on_of later ctx.organization_id new_id ≡ relied_on
    unfolding stored add_decision relied_on_of
    relied-stored fresh = relied-new ctx.organization_id new_id relied_on db.decision_facts fresh

    stored-verified :
        (visible : List PrivacyScope)
        → All (λ (f : DecisionFact). f.decision_id ≢ new_id) db.decision_facts
        → let r =
            receipt_of seal value_sha256 later ctx.organization_id visible decision snapshot in
          r.integrity_verified ≡ true
    unfolding receipt_of receipt_hash stored add_decision
    stored-verified visible fresh =
        let rows =
          stored-rows seal value_sha256 db ctx new_id now command snapshot relied_on
            ctx.organization_id snapshot.id in
        rw rows (rw (relied-stored fresh) (==_refl _))

    stored-Marked :
        (visible : List PrivacyScope)
        → All (λ (f : DecisionFact). f.decision_id ≢ new_id) db.decision_facts
        → ((i : ℕ) → contains i relied_on ≡ contains i command.relied_on)
        → let r =
            receipt_of seal value_sha256 later ctx.organization_id visible decision snapshot in
          All (IsMarked command.relied_on) r.facts
    unfolding receipt_of stored add_decision
    stored-Marked visible fresh same = rw (relied-stored fresh) (
        All-map (IsMarked command.relied_on) (λ row. Unit {0})
          (receipt_fact later ctx.organization_id visible relied_on snapshot.known_at) _
          (λ row u.
            receipt_fact-IsMarked later ctx.organization_id visible relied_on command.relied_on
              snapshot.known_at row same)
          (All-every (λ row. Unit {0}) _ (λ row. tt)))

    pub stored-found : get_decision later ctx.organization_id new_id ≡ some decision
    unfolding get_decision stored add_decision
    stored-found = rw (==_refl ctx.organization_id) (rw (==_refl new_id) refl)

    pub stored-snapshot :
        get_snapshot db ctx.organization_id command.snapshot_id ≡ some snapshot
        → get_snapshot later ctx.organization_id decision.snapshot_id ≡ some snapshot
    unfolding get_snapshot stored add_decision
    stored-snapshot found =
        let same = get_snapshot-same db ctx.organization_id command.snapshot_id snapshot found in
        ap (λ i. get_snapshot db ctx.organization_id i) same ∙ found

    -- What a receipt of the stored decision says.
    abbrev Says : DecisionReceipt → Decision → Type 0
    Says r d =
        (r.integrity_verified ≡ true)
        × (r.decision ≡ d)
        × (r.context ≡ snapshot)
        × All (IsMarked command.relied_on) r.facts

    stored_fields :
        (decision.action ≡ command.action)
        × (decision.outcome ≡ command.outcome)
        × (decision.rationale ≡ command.rationale)
        × (decision.agent ≡ command.agent)
    unfolding stored add_decision
    stored_fields = (refl, refl, refl, refl)

    stored-Says :
        (visible : List PrivacyScope)
        → All (λ (f : DecisionFact). f.decision_id ≢ new_id) db.decision_facts
        → ((i : ℕ) → contains i relied_on ≡ contains i command.relied_on)
        → Says
            (receipt_of seal value_sha256 later ctx.organization_id visible decision snapshot)
            decision
    unfolding receipt_of
    stored-Says visible fresh same =
        (stored-verified visible fresh, refl, refl, stored-Marked visible fresh same)

    later-Says :
        (loaded : ℕ → ℕ) (reader : TenantContext) (r : DecisionReceipt)
        → loaded decision.outcome ≡ decision.outcome
        → get_snapshot db ctx.organization_id command.snapshot_id ≡ some snapshot
        → ((i : ℕ) → contains i relied_on ≡ contains i command.relied_on)
        → All (λ (f : DecisionFact). f.decision_id ≢ new_id) db.decision_facts
        → reader.organization_id ≡ ctx.organization_id
        → Read seal value_sha256 loaded later reader new_id r
        → Says r decision
    later-Says loaded reader r faithful found same fresh org read =
        let found_d = read.decision_found in
        let found_s = read.snapshot_found in
        let stored_d = stored-found in
        let stored_s = stored-snapshot found in
        let d : read.decision ≡ decision = cc in
        let s : read.snapshot ≡ snapshot = cc in
        let is_r = read.read in
        let seen : with_outcome loaded read.decision ≡ decision =
          ap (with_outcome loaded) d ∙ ap (λ n. record decision { outcome = n }) faithful in
        let e : receipt_of seal value_sha256 later ctx.organization_id read.visible decision
              snapshot
            ≡ r =
          cc in
        subst (λ x. Says x decision) e (stored-Says read.visible fresh same)

-- If a decision was stored under an id that no stored citation had, and its outcome is read back from
-- the JSONB column as it was written, then whoever of the same organization reads its receipt next is
-- told that its hash is verified, and is given the stored
-- decision, with the action, outcome, rationale and agent that were recorded, and its snapshot, in
-- which exactly the versions that the decision cited are marked as relied on.
pub store_decision-verified :
    (seal : ReceiptDocument → ℕ) (value_sha256 loaded : ℕ → ℕ) (db db' : Db)
    (ctx reader : TenantContext) (new_id now : ℕ) (command : RecordDecision) (decision : Decision)
    (r : DecisionReceipt)
    → store_decision seal value_sha256 db ctx new_id now command ≡ ok (decision, db')
    → All (λ (f : DecisionFact). f.decision_id ≢ new_id) db.decision_facts
    → reader.organization_id ≡ ctx.organization_id
    → loaded command.outcome ≡ command.outcome
    → receipt seal value_sha256 loaded db' reader new_id ≡ ok r
    → (r.integrity_verified ≡ true)
      × (r.decision ≡ decision)
      × (r.decision.action ≡ command.action)
      × (r.decision.outcome ≡ command.outcome)
      × (r.decision.rationale ≡ command.rationale)
      × (r.decision.agent ≡ command.agent)
      × (get_snapshot db ctx.organization_id command.snapshot_id ≡ some r.context)
      × All (IsMarked command.relied_on) r.facts
unfolding stored
store_decision-verified seal value_sha256 loaded db db' ctx reader new_id now command decision r h
      fresh org faithful h' =
    let st = store_decision-Stored seal value_sha256 db db' ctx new_id now command decision h in
    let same : (i : ℕ) → contains i st.relied_on ≡ contains i command.relied_on =
      λ i. validate_relied_on-contains command.relied_on _ st.relied_on i st.valid in
    let read =
      receipt-Read seal value_sha256 loaded
        (later seal value_sha256 db ctx new_id now command st.snapshot st.relied_on) reader new_id r
        (subst (λ p. receipt seal value_sha256 loaded p.1 reader new_id ≡ ok r) (sym st.added)
          h') in
    let (verified, is_stored, context, marked) =
      later-Says seal value_sha256 db ctx new_id now command st.snapshot st.relied_on loaded reader
        r
        (ap loaded
            (stored_fields seal value_sha256 db ctx new_id now command st.snapshot st.relied_on).1
          ∙ faithful
          ∙ sym
              (stored_fields seal value_sha256 db ctx new_id now command st.snapshot
                st.relied_on).1)
        st.found same fresh org read in
    let (action, outcome, rationale, agent) =
      stored_fields seal value_sha256 db ctx new_id now command st.snapshot st.relied_on in
    (
      verified,
      is_stored ∙ ap (λ p. p.0) st.added,
      ap (λ (d : Decision). d.action) is_stored ∙ action,
      ap (λ (d : Decision). d.outcome) is_stored ∙ outcome,
      ap (λ (d : Decision). d.rationale) is_stored ∙ rationale,
      ap (λ (d : Decision). d.agent) is_stored ∙ agent,
      st.found ∙ ap some (sym context),
      marked,
    )

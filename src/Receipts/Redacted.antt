-- ===== src/Receipts/Redacted.antt =====
-- What a receipt hides from its reader (backend/app/services/decisions.py).
use context_ledger.Base.{
  some, ℕ, ◌≡◌, ◌⊎◌, refl, subst, Bool, true, false, none, List, [], ◌∷◌, map, Bool-cases, inl, inr,
  arith,
}
use context_ledger.Errors.{ok}
use context_ledger.Temporal.{as_known}
use context_ledger.Versions.{to_snapshot}
use context_ledger.Privacy.{PrivacyScope, scope_in}
use context_ledger.Roles.{MembershipRole, TenantContext, read_decisions}
use context_ledger.Db.{Db, ContextSnapshot, Decision}
use context_ledger.Authorization.{require_permission}
use context_ledger.Visibility.{visible_privacy_scopes}
use context_ledger.Receipts.Document.{ReceiptDocument}
use context_ledger.Receipts.{
  revoked_at_of, SnapshotFactRow, ReceiptFact, DecisionReceipt, receipt_fact, receipt_of, receipt,
  with_outcome, snapshot_rows, relied_on_of,
}
use context_ledger.Receipts.Sealed.{receipt-Read}

-- What a fact of a receipt says of its row: all of it, as known at the snapshot's knowledge time.
abbrev pub IsShown : Db → ℕ → ℕ → SnapshotFactRow → ReceiptFact → Type 0
IsShown db o known_at row f =
    (f.redacted ≡ false)
    × (f.entity_type ≡ some row.entity_type)
    × (f.external_id ≡ some row.external_id)
    × (f.property ≡ some row.property)
    × (f.source_name ≡ some row.source_name)
    × (f.version ≡ some (as_known (to_snapshot row.version) (some known_at)))
    × (f.ranking ≡ some row.snapshot_fact.ranking)
    × (f.revoked_at ≡ revoked_at_of db o row.version.id)

-- Nothing of its content.
abbrev pub IsHidden : ReceiptFact → Type 0
IsHidden f =
    (f.redacted ≡ true)
    × (f.entity_type ≡ none)
    × (f.external_id ≡ none)
    × (f.property ≡ none)
    × (f.source_name ≡ none)
    × (f.version ≡ none)
    × (f.ranking ≡ none)
    × (f.revoked_at ≡ none)

-- The rows of a snapshot and the facts of a receipt, one for one: the version's id, its position and
-- its scope are told, and the content exactly if the scope is visible.
abbrev pub AreGuarded :
    Db → ℕ → List PrivacyScope → ℕ → List SnapshotFactRow → List ReceiptFact → Type 0
AreGuarded db o visible known_at [] [] = Unit {0}
AreGuarded db o visible known_at [] (f ∷ fs) = ⊥
AreGuarded db o visible known_at (row ∷ rows) [] = ⊥
AreGuarded db o visible known_at (row ∷ rows) (f ∷ fs) =
    (f.fact_version_id ≡ row.version.id)
    × (f.position ≡ row.snapshot_fact.position)
    × (f.privacy_scope ≡ row.version.privacy_scope)
    × (((scope_in visible row.version.privacy_scope ≡ true) × IsShown db o known_at row f)
        ⊎ ((scope_in visible row.version.privacy_scope ≡ false) × IsHidden f))
    × AreGuarded db o visible known_at rows fs

facts-AreGuarded :
    (db : Db) (o : ℕ) (visible : List PrivacyScope) (relied_on : List ℕ) (known_at : ℕ)
    (rows : List SnapshotFactRow)
    → AreGuarded db o visible known_at rows
        (map (receipt_fact db o visible relied_on known_at) rows)
unfolding receipt_fact
facts-AreGuarded db o visible relied_on known_at [] = tt
facts-AreGuarded db o visible relied_on known_at (row ∷ rows) =
    let rest = facts-AreGuarded db o visible relied_on known_at rows in
    elim (Bool-cases (scope_in visible row.version.privacy_scope)) [
      | inl shown ↦
          rw shown
            (refl, refl, refl, inl (refl, (refl, refl, refl, refl, refl, refl, refl, refl)), rest)
      | inr hidden ↦
          rw hidden
            (refl, refl, refl, inr (refl, (refl, refl, refl, refl, refl, refl, refl, refl)), rest)
    ]

-- The facts of a receipt are guarded, against the rows of its snapshot.
abbrev pub Guarded : Db → ℕ → List PrivacyScope → DecisionReceipt → Type 0
Guarded db o visible r =
    AreGuarded db o visible r.context.known_at (snapshot_rows db o r.context.id) r.facts

-- What every reader is told of a fact: its version, position, and whether it was relied on.
abbrev pub identity_of : ReceiptFact → ℕ × (ℕ × Bool)
identity_of f = (f.fact_version_id, (f.position, f.relied_on))

same_identity :
    (db : Db) (o : ℕ) (a b : List PrivacyScope) (relied_on : List ℕ) (known_at : ℕ)
    (rows : List SnapshotFactRow)
    → map identity_of (map (receipt_fact db o a relied_on known_at) rows)
      ≡ map identity_of (map (receipt_fact db o b relied_on known_at) rows)
unfolding receipt_fact
same_identity db o a b relied_on known_at [] = refl
same_identity db o a b relied_on known_at (row ∷ rows) =
    ground (arith, same_identity db o a b relied_on known_at rows)

-- Two receipts tell the same of the decision and of which facts it had.
abbrev pub Agree : DecisionReceipt → DecisionReceipt → Type 0
Agree r r' =
    (r.integrity_verified ≡ r'.integrity_verified)
    × (r.decision ≡ r'.decision)
    × (r.context ≡ r'.context)
    × (map identity_of r.facts ≡ map identity_of r'.facts)

module _ (seal : ReceiptDocument → ℕ) (value_sha256 : ℕ → ℕ) (db : Db) (o : ℕ) (decision : Decision)
    (snapshot : ContextSnapshot) where
  AreGuarded-of :
      (visible : List PrivacyScope)
      → AreGuarded db o visible snapshot.known_at
          (snapshot_rows db o snapshot.id)
          (receipt_of seal value_sha256 db o visible decision snapshot).facts
  unfolding receipt_of
  AreGuarded-of visible =
      facts-AreGuarded db o visible (relied_on_of db o decision.id) snapshot.known_at
        (snapshot_rows db o snapshot.id)

  Agree-of :
      (a b : List PrivacyScope)
      → Agree
          (receipt_of seal value_sha256 db o a decision snapshot)
          (receipt_of seal value_sha256 db o b decision snapshot)
  unfolding receipt_of
  Agree-of a b = (
    refl,
    refl,
    refl,
    same_identity db o a b (relied_on_of db o decision.id) snapshot.known_at
        (snapshot_rows db o snapshot.id),
  )

-- A receipt lists the facts of its snapshot one for one. A reader is shown a fact's entity, property,
-- source, version as known at the snapshot's knowledge time, ranking and revocation exactly if its
-- privacy scope is one that the reader's role and ceiling allow; of the others the receipt tells none
-- of these. All readers of the organization are told the same of whether the hash is verified, of the
-- decision and its snapshot, and of each fact's version id, position and whether it was relied on.
pub receipt-Redacted :
    (seal : ReceiptDocument → ℕ) (value_sha256 loaded : ℕ → ℕ) (db : Db)
    (reader other : TenantContext) (decision_id : ℕ) (r r' : DecisionReceipt)
    → reader.organization_id ≡ other.organization_id
    → receipt seal value_sha256 loaded db reader decision_id ≡ ok r
    → receipt seal value_sha256 loaded db other decision_id ≡ ok r'
    → (role : MembershipRole) × (require_permission db reader read_decisions ≡ ok role)
      × Guarded db reader.organization_id
          (visible_privacy_scopes role (reader.max_privacy_scope ∷ []))
          r
      × Agree r r'
unfolding receipt_of
receipt-Redacted seal value_sha256 loaded db reader other decision_id r r' org h h' =
    let x = receipt-Read seal value_sha256 loaded db reader decision_id r h in
    let y = receipt-Read seal value_sha256 loaded db other decision_id r' h' in
    let xd = x.decision_found in
    let yd = y.decision_found in
    let same_d : x.decision ≡ y.decision = cc in
    let xs = x.snapshot_found in
    let ys = y.snapshot_found in
    let same_s : x.snapshot ≡ y.snapshot = cc in
    let x_is = x.read in
    let y_is = y.read in
    let same_r : receipt_of seal value_sha256 db reader.organization_id y.visible
          (with_outcome loaded x.decision) x.snapshot
        ≡ r' =
      cc in
    (
      x.role,
      x.allowed,
      subst (λ v. Guarded db reader.organization_id v r) x.scopes
          (subst (λ t. Guarded db reader.organization_id x.visible t) x_is
            (AreGuarded-of seal value_sha256 db reader.organization_id
              (with_outcome loaded x.decision) x.snapshot x.visible)),
      subst (λ t. Agree t r') x_is
          (subst
            (λ t.
              Agree
                (receipt_of seal value_sha256 db reader.organization_id x.visible
                  (with_outcome loaded x.decision) x.snapshot)
                t)
            same_r
            (Agree-of seal value_sha256 db reader.organization_id (with_outcome loaded x.decision)
              x.snapshot x.visible y.visible)),
    )

-- ===== src/Receipts/Outcome.antt =====
-- How `record_decision` ends (backend/app/services/decisions.py).
use context_ledger.Base.{ℕ, ◌≡◌, ◌⊎◌, refl, sym, ap, ◌∙◌, some, [], ◌∷◌, List, inl, inr}
use context_ledger.Errors.{Result, DomainError, err, ok, Result-cases}
use context_ledger.Roles.{MembershipRole, TenantContext, read_decisions}
use context_ledger.Db.{Db, ContextSnapshot, Decision}
use context_ledger.Authorization.{require_permission, get_user}
use context_ledger.Visibility.{visible_privacy_scopes}
use context_ledger.Receipts.Document.{ReceiptDocument}
use context_ledger.Receipts.{
  RecordDecision, DecisionReceipt, get_snapshot, add_decision, store_decision, receipt_of, receipt,
  then_receipt, record_decision,
}
use context_ledger.Receipts.Sealed.{store_decision-Stored, stored}
use context_ledger.Receipts.Verified.{later, decision, stored-found, stored-snapshot}

module _ (seal : ReceiptDocument → ℕ) (value_sha256 : ℕ → ℕ) where
  -- Storing a decision leaves the caller's rights as they are.
  require-later :
      (db : Db) (ctx : TenantContext) (new_id now : ℕ) (command : RecordDecision)
      (snapshot : ContextSnapshot) (relied_on : List ℕ)
      → require_permission
          (later seal value_sha256 db ctx new_id now command snapshot relied_on)
          ctx
          read_decisions
        ≡ require_permission db ctx read_decisions
  unfolding stored add_decision require_permission get_user
  require-later db ctx new_id now command snapshot relied_on = refl

  receipt-later :
      (db : Db) (ctx : TenantContext) (new_id now : ℕ) (command : RecordDecision)
      (snapshot : ContextSnapshot) (relied_on : List ℕ) (role : MembershipRole)
      → get_snapshot db ctx.organization_id command.snapshot_id ≡ some snapshot
      → require_permission db ctx read_decisions ≡ ok role
      → let db' = later seal value_sha256 db ctx new_id now command snapshot relied_on in
        (r : DecisionReceipt) × (receipt seal value_sha256 (λ n. n) db' ctx new_id ≡ ok r)
  unfolding receipt
  receipt-later db ctx new_id now command snapshot relied_on role found allowed =
      let db' = later seal value_sha256 db ctx new_id now command snapshot relied_on in
      let d = decision seal value_sha256 db ctx new_id now command snapshot relied_on in
      (
        receipt_of seal value_sha256 db' ctx.organization_id
            (visible_privacy_scopes role (ctx.max_privacy_scope ∷ [])) d snapshot,
        rw (require-later db ctx new_id now command snapshot relied_on) (
            rw allowed (
              rw (stored-found seal value_sha256 db ctx new_id now command snapshot relied_on) (
                rw
                  (stored-snapshot seal value_sha256 db ctx new_id now command snapshot relied_on
                    found)
                  refl))),
      )

  stored-id :
      (db : Db) (ctx : TenantContext) (new_id now : ℕ) (command : RecordDecision)
      (snapshot : ContextSnapshot) (relied_on : List ℕ)
      → (decision seal value_sha256 db ctx new_id now command snapshot relied_on).id ≡ new_id
  unfolding stored add_decision
  stored-id db ctx new_id now command snapshot relied_on = refl

  receipt-refused :
      (db : Db) (ctx : TenantContext) (new_id : ℕ) (e : DomainError)
      → require_permission db ctx read_decisions ≡ err e
      → receipt seal value_sha256 (λ n. n) db ctx new_id ≡ err e
  unfolding receipt
  receipt-refused db ctx new_id e refused = rw refused refl

  -- Nothing was stored and the error is that of the first transaction; or the decision is stored, and
  -- the caller gets its receipt or the refusal to read it.
  abbrev pub Ends :
      Db → TenantContext → ℕ → Result (Decision × Db) → Result DecisionReceipt × Db → Type 0
  Ends db ctx new_id first outcome =
      ((e : DomainError) × (first ≡ err e) × (outcome ≡ (err e, db)))
      ⊎ ((d : Decision) × (db' : Db) × (first ≡ ok (d, db'))
          × (((e : DomainError) × (require_permission db ctx read_decisions ≡ err e)
                × (outcome ≡ (err e, db')))
              ⊎ ((role : MembershipRole) × (r : DecisionReceipt) × (require_permission db ctx
                      read_decisions
                    ≡ ok role)
                  × (receipt seal value_sha256 (λ n. n) db' ctx new_id ≡ ok r)
                  × (outcome ≡ (ok r, db')))))

-- Recording a decision ends in one of three ways. Its transaction raised: then the call raises the
-- same and the database is as before. Or the decision is stored: then, if the caller may read
-- decisions, the call returns its receipt, and if the caller may not, it raises that refusal although
-- the decision stays stored.
pub record_decision-Ends :
    (seal : ReceiptDocument → ℕ) (value_sha256 : ℕ → ℕ) (db : Db) (ctx : TenantContext)
    (new_id now : ℕ) (command : RecordDecision)
    → Ends seal value_sha256 db ctx new_id
        (store_decision seal value_sha256 db ctx new_id now command)
        (record_decision seal value_sha256 db ctx new_id now command)
unfolding record_decision stored
record_decision-Ends seal value_sha256 db ctx new_id now command =
    elim (Result-cases (store_decision seal value_sha256 db ctx new_id now command)) [
      | inl (e, raised) ↦ inl (e, raised, rw raised refl)
      | inr ((d, db'), h) ↦
          let st = store_decision-Stored seal value_sha256 db db' ctx new_id now command d h in
          let is_stored = st.added in
          let same_db : later seal value_sha256 db ctx new_id now command st.snapshot st.relied_on
              ≡ db' =
            ap (λ p. p.1) is_stored in
          let same_id =
            sym (ap (λ p. p.0.id) is_stored)
            ∙ stored-id seal value_sha256 db ctx new_id now command st.snapshot st.relied_on in
          let returned =
            ap (then_receipt seal value_sha256 db ctx) h
            ∙ ap (λ i. (receipt seal value_sha256 (λ n. n) db' ctx i, db')) same_id in
          let rights =
            sym (ap (λ x. require_permission x ctx read_decisions) same_db)
            ∙ require-later seal value_sha256 db ctx new_id now command st.snapshot st.relied_on in
          elim (Result-cases (require_permission db ctx read_decisions)) [
            | inl (e, refused) ↦ inr (
              d,
              db',
              h,
              inl (
                e,
                refused,
                returned
                    ∙ ap (λ x. (x, db'))
                        (receipt-refused seal value_sha256 db' ctx new_id e (rights ∙ refused)),
              ),
            )
            | inr (role, allowed) ↦
                let (r, e) =
                  receipt-later seal value_sha256 db ctx new_id now command st.snapshot st.relied_on
                    role st.found allowed in
                let read =
                  ap (λ x. receipt seal value_sha256 (λ n. n) x ctx new_id) (sym same_db) ∙ e in
                inr (d, db', h, inr (role, r, allowed, read, returned ∙ ap (λ x. (x, db')) read))
          ]
    ]

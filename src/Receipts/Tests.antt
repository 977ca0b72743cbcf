-- ===== src/Receipts/Tests.antt =====
-- A decision on a customer's status, its receipt, and a version recorded afterwards
-- (backend/app/services/decisions.py).
use context_ledger.Authority.{validate_authority}
use context_ledger.Base.{
  min, ℕ, ◌+◌, ◌*◌, ◌≡◌, ◌≢◌, ◌⊎◌, ◌<◌, refl, true, none, some, List, [], ◌∷◌, All, length,
  contains, arith,
}
use context_ledger.Base.Sorted.{IsSorted}
use context_ledger.Base.Distinct.{Distinct}
use context_ledger.Errors.{ok, err, permission_denied, validation_failed}
use context_ledger.Privacy.{internal, restricted}
use context_ledger.Roles.{
  MembershipRole, TenantContext, admin, engineer, record_decisions, read_decisions, has_permission,
}
use context_ledger.Facts.{
  aware, make_window, check_end, require_aware, require_aware_opt, plan_new_version,
}
use context_ledger.Contradictions.{value_conflict, preferred}
use context_ledger.Versions.{FactVersion}
use context_ledger.Db.{used, Db, ContextSnapshot, Decision, DecisionFact}
use context_ledger.Authorization.{require_permission, get_user, get_membership}
use context_ledger.Visibility.{visible_privacy_scopes}
use context_ledger.EvidenceLinks.{get_version, unique_from, link_some, link_evidence}
use context_ledger.Recording.{
  Command, Supply, get_source, get_or_create_entity, get_or_create_fact, get_fact, of_fact,
  latest_version, next_transaction_time, close_row, close_version, close_previous, latest_view,
  new_version, detect_value_conflict, append_version, record_version,
}
use context_ledger.Receipts.Document.{ReceiptDocument}
use context_ledger.Receipts.ReliedOn.{validate_relied_on, itself}
use context_ledger.Receipts.ReliedOn.Exact.{IsCitation, validate_relied_on_exact}
use context_ledger.Receipts.{
  RecordDecision, DecisionReceipt, get_snapshot, get_decision, get_entity, join_row, join_rows,
  snapshot_rows, add_decision, store_decision, receipt_of, receipt, record_decision,
}
use context_ledger.Receipts.Verified.{IsMarked, store_decision-verified}
use context_ledger.Receipts.Outcome.{Ends, record_decision-Ends}
use context_ledger.Receipts.Redacted.{Guarded, Agree, receipt-Redacted}
use context_ledger.Receipts.Unchanged.Closed.{IsEndKnown}
use context_ledger.Receipts.Unchanged.Joined.{IsUnused}
use context_ledger.Receipts.Unchanged.{record_version-receipt}

abbrev seal : ReceiptDocument → ℕ
seal d = d.outcome * 100 + length d.facts

abbrev value_sha256 : ℕ → ℕ
value_sha256 v = v + 7

abbrev active : FactVersion
active = record {
  id = 50;
  organization_id = 1;
  fact_id = 40;
  version = 1;
  value = 1;
  source_id = 20;
  valid_from = 900;
  valid_until = none;
  observed_at = 1200;
  recorded_at = 1210;
  valid_until_recorded_at = none;
  supersedes_id = none;
  authority = 50;
  confidence = 1000;
  privacy_scope = restricted;
}

abbrev snapshot : ContextSnapshot
snapshot = record {
  id = 70;
  organization_id = 1;
  captured_by_user_id = 10;
  query = "customer 991";
  valid_at = 1250;
  known_at = 1250;
  embedding_model = 4;
  vector_search = used;
  privacy_scopes = internal ∷ restricted ∷ [];
  parameters = 0;
}

-- User 10 is an administrator, user 11 an engineer.
abbrev db : Db
db = record {
  users = record { id = 10; is_active = true } ∷ record { id = 11; is_active = true } ∷ [];
  organizations = record { id = 1; slug = "acme"; name = "Acme" } ∷ [];
  memberships =
      record { organization_id = 1; user_id = 10; role = admin }
      ∷ record { organization_id = 1; user_id = 11; role = engineer }
      ∷ [];
  sources = record { id = 20; organization_id = 1; name = "crm"; default_authority = 50 } ∷ [];
  entities =
      record { id = 30; organization_id = 1; entity_type = "customer"; external_id = "991" } ∷ [];
  facts = record { id = 40; organization_id = 1; entity_id = 30; property = "status" } ∷ [];
  versions = active ∷ [];
  evidence = [];
  links = [];
  contradictions = [];
  revocations = [];
  decisions = [];
  snapshots = snapshot ∷ [];
  snapshot_facts =
      record {
        organization_id = 1;
        snapshot_id = 70;
        fact_version_id = 50;
        position = 1;
        ranking = 9;
      }
      ∷ [];
  decision_facts = [];
  impacts = [];
}

abbrev user : ℕ → MembershipRole → TenantContext
user i role = record {
  organization_id = 1;
  user_id = i;
  role = role;
  scopes = none;
  max_privacy_scope = none;
  agent_client_id = none;
}

abbrev approve : RecordDecision
approve = record {
  snapshot_id = 70;
  action = "credit.approve_increase";
  outcome = 6;
  relied_on = 50 ∷ [];
  rationale = none;
  agent = some "credit-review";
}

abbrev stored_db : Decision × Db
stored_db =
    add_decision seal value_sha256 db (user 11 engineer) 80 1300 approve snapshot
      (snapshot_rows db 1 70) (50 ∷ [])

is_stored : store_decision seal value_sha256 db (user 11 engineer) 80 1300 approve ≡ ok stored_db
unfolding store_decision require_permission get_user get_membership has_permission get_snapshot
    snapshot_rows join_rows join_row get_version get_fact get_entity get_source validate_relied_on
is_stored = refl

abbrev admin_receipt : DecisionReceipt
admin_receipt =
    receipt_of seal value_sha256 stored_db.1 1 (visible_privacy_scopes admin (none ∷ []))
      stored_db.0 snapshot

-- Outcomes are read back as they were written, up to some size.
abbrev loaded : ℕ → ℕ
loaded outcome = min outcome 1_000_000

abbrev engineer_receipt : DecisionReceipt
engineer_receipt =
    receipt_of seal value_sha256 stored_db.1 1 (visible_privacy_scopes engineer (none ∷ []))
      stored_db.0 snapshot

read_by_admin : receipt seal value_sha256 loaded stored_db.1 (user 10 admin) 80 ≡ ok admin_receipt
unfolding receipt require_permission get_user get_membership has_permission get_snapshot
    get_decision add_decision
read_by_admin = refl

read_by_engineer :
    receipt seal value_sha256 loaded stored_db.1 (user 11 engineer) 80 ≡ ok engineer_receipt
unfolding receipt require_permission get_user get_membership has_permission get_snapshot
    get_decision add_decision
read_by_engineer = refl

fresh_facts : All (λ (f : DecisionFact). f.decision_id ≢ 80) db.decision_facts
fresh_facts = tt

store_decision-verified_example :
    (admin_receipt.integrity_verified ≡ true)
    × (admin_receipt.decision ≡ stored_db.0)
    × (admin_receipt.decision.action ≡ approve.action)
    × (admin_receipt.decision.outcome ≡ approve.outcome)
    × (admin_receipt.decision.rationale ≡ approve.rationale)
    × (admin_receipt.decision.agent ≡ approve.agent)
    × (get_snapshot db 1 70 ≡ some admin_receipt.context)
    × All (IsMarked (50 ∷ [])) admin_receipt.facts
store_decision-verified_example =
    store_decision-verified seal value_sha256 loaded db stored_db.1 (user 11 engineer)
      (user 10 admin) 80 1300 approve stored_db.0 admin_receipt is_stored fresh_facts refl refl
      read_by_admin

-- The engineer may not see the restricted fact; the hash is verified all the same.
receipt-Redacted_example :
    (role : MembershipRole) × (require_permission stored_db.1 (user 11 engineer) read_decisions
      ≡ ok role)
    × Guarded stored_db.1 1 (visible_privacy_scopes role (none ∷ [])) engineer_receipt
    × Agree engineer_receipt admin_receipt
receipt-Redacted_example =
    receipt-Redacted seal value_sha256 loaded stored_db.1 (user 11 engineer) (user 10 admin) 80
      engineer_receipt admin_receipt refl read_by_engineer read_by_admin

-- A token that may record decisions but not read them.
abbrev recorder : TenantContext
recorder = record (user 11 engineer) { scopes = some (record_decisions ∷ []) }

record_decision-Ends_example :
    Ends seal value_sha256 db recorder 80
      (store_decision seal value_sha256 db recorder 80 1300 approve)
      (record_decision seal value_sha256 db recorder 80 1300 approve)
record_decision-Ends_example = record_decision-Ends seal value_sha256 db recorder 80 1300 approve

-- The decision is stored, and the call raises.
stored_and_refused :
    record_decision seal value_sha256 db recorder 80 1300 approve
    ≡ (err permission_denied, stored_db.1)
unfolding record_decision store_decision receipt require_permission get_user get_membership
    has_permission get_snapshot get_decision snapshot_rows join_rows join_row get_version get_fact
    get_entity get_source validate_relied_on add_decision
stored_and_refused = refl

abbrev IsAnswered : List ℕ → List ℕ → Type 0
IsAnswered ids snapshot_facts =
    (IsCitation ids snapshot_facts
      × ((valid : List ℕ) × (validate_relied_on ids snapshot_facts ≡ ok valid)
          × IsSorted itself valid
          × Distinct itself valid
          × ((i : ℕ) → contains i valid ≡ contains i ids)))
    ⊎ ((¬ IsCitation ids snapshot_facts)
        × (validate_relied_on ids snapshot_facts ≡ err validation_failed))

validate_relied_on_exact_example : IsAnswered (52 ∷ 50 ∷ []) (50 ∷ 51 ∷ 52 ∷ [])
validate_relied_on_exact_example = validate_relied_on_exact (52 ∷ 50 ∷ []) (50 ∷ 51 ∷ 52 ∷ [])

cited_in_order : validate_relied_on (52 ∷ 50 ∷ []) (50 ∷ 51 ∷ 52 ∷ []) ≡ ok (50 ∷ 52 ∷ [])
unfolding validate_relied_on
cited_in_order = refl

-- The same source reports another value, valid from 1000.
abbrev changed : Command
changed = record {
  entity_type = "customer";
  external_id = "991";
  property = "status";
  value = 2;
  source_id = 20;
  valid_from = aware 1000;
  valid_until = none;
  observed_at = none;
  authority = none;
  confidence = 900;
  privacy_scope = internal;
  evidence_ids = [];
}

abbrev supply : Supply
supply = record {
  entity_id = 31;
  fact_id = 41;
  version_id = 51;
  contradiction_id = 60;
  clock = 1400;
}

abbrev next_version : FactVersion
next_version = record {
  id = 51;
  organization_id = 1;
  fact_id = 40;
  version = 2;
  value = 2;
  source_id = 20;
  valid_from = 1000;
  valid_until = none;
  observed_at = 1000;
  recorded_at = 1400;
  valid_until_recorded_at = none;
  supersedes_id = some 50;
  authority = 50;
  confidence = 900;
  privacy_scope = internal;
}

abbrev after : Db
after = record stored_db.1 {
  versions =
      next_version
      ∷ record active { valid_until = some 1000; valid_until_recorded_at = some 1400 }
      ∷ [];
}

is_recorded : record_version stored_db.1 (user 10 admin) supply changed ≡ ok (next_version, after)
unfolding record_version make_window check_end require_aware require_aware_opt plan_new_version
    value_conflict preferred get_user get_membership require_permission has_permission unique_from
    link_some link_evidence validate_authority get_source get_or_create_entity get_or_create_fact
    of_fact latest_version next_transaction_time close_row close_version close_previous latest_view
    new_version detect_value_conflict append_version add_decision
is_recorded = refl

unused : IsUnused 51 41 31 stored_db.1
unfolding add_decision
unused = record {
  versions = (omega arith, tt);
  facts = (omega arith, tt);
  entities = (omega arith, tt);
}

known_before : All (λ (x : ContextSnapshot). x.known_at < 1400) stored_db.1.snapshots
unfolding add_decision
known_before = (omega arith, tt)

ends_known : All IsEndKnown stored_db.1.versions
unfolding add_decision
ends_known = (refl, tt)

record_version-receipt_example :
    receipt seal value_sha256 loaded after (user 10 admin) 80
    ≡ receipt seal value_sha256 loaded stored_db.1 (user 10 admin) 80
record_version-receipt_example =
    record_version-receipt seal value_sha256 loaded stored_db.1 after (user 10 admin)
      (user 10 admin) supply changed next_version 80 ends_known unused known_before is_recorded

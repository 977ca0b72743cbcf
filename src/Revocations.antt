-- ===== src/Revocations.antt =====
-- backend/app/services/revocations.py (`RevocationService`). `revoke` locks the fact's row, so
-- revocations of one fact run one after another. Of a report the decisions and their counts are
-- modelled, and not the texts that are read for display. A reason is taken stripped.
pub mod Effect
pub mod Once
mod Tests
use Prim.Native.String.{String}
use Prim.Native.String.{count as str_length}
use context_ledger.Base.{
  ℕ, Bool, true, false, not, ◌&&◌, ◌||◌, Option, none, some, List, [], ◌∷◌, ◌++◌, map, filter, any,
  find?, count, length, take, ◌==◌, leb, ltb, if◌then◌else◌,
}
use context_ledger.Base.Sort.{sort_by}
use context_ledger.Errors.{
  Result, ok, validation_failed, not_found, conflict, raise_if, or_raise, ◌>>=◌, ◌>>◌,
}
use context_ledger.Privacy.{PrivacyScope, scope_in}
use context_ledger.Roles.{TenantContext, read_facts, write_facts, read_decisions}
use context_ledger.Versions.{FactVersion, VersionSnapshot, to_snapshot}
use context_ledger.Db.{
  Db, Fact, Decision, ContextSnapshotFact, DecisionFact, FactRevocation, RevocationImpact,
}
use context_ledger.Authorization.{require_permission}
use context_ledger.Visibility.{visible_privacy_scopes}
use context_ledger.EvidenceLinks.{get_version}
use context_ledger.Recording.{get_fact, latest_version}

pub record ImpactedDecision : Type 0 where
  pub decision_id : ℕ
  pub snapshot_id : ℕ
  pub decided_at : ℕ
  pub relied_on : Bool
  pub recorded_at_revocation : Bool
  pub decided_after_revocation : Bool

pub record RevocationReport : Type 0 where
  pub revocation_id : ℕ
  pub fact_version_id : ℕ
  pub reason : String
  pub revoked_by_user_id : ℕ
  pub revoked_at : ℕ
  pub decisions : List ImpactedDecision
  pub decisions_relied_on : ℕ
  pub decisions_with_version_in_context : ℕ

abbrev pub max_reason_chars : ℕ
max_reason_chars = 2000

-- The `EXISTS` of `_decisions_with`.
abbrev pub cites : Db → ℕ → Decision → Bool
cites db version_id d =
    any
      (λ (f : DecisionFact).
        f.organization_id == d.organization_id
        && f.decision_id == d.id
        && f.fact_version_id == version_id)
      db.decision_facts

-- The rows of the join on one decision: the version in the decision's snapshot.
abbrev pub in_context : Db → ℕ → Decision → List ContextSnapshotFact
in_context db version_id d =
    filter
      (λ (f : ContextSnapshotFact).
        f.organization_id == d.organization_id
        && f.snapshot_id == d.snapshot_id
        && f.fact_version_id == version_id)
      db.snapshot_facts

unfoldable pub joined_decisions : Db → ℕ → ℕ → List Decision → List (Decision × Bool)
joined_decisions db o version_id [] = []
joined_decisions db o version_id (d ∷ ds) =
    let rest = joined_decisions db o version_id ds in
    if d.organization_id == o
    then map (λ f. (d, cites db version_id d)) (in_context db version_id d) ++ rest
    else rest

abbrev pub decided : Decision × Bool → ℕ
decided (d, flag) = d.decided_at

abbrev pub decision_id : Decision × Bool → ℕ
decision_id (d, flag) = d.id

-- `ORDER BY decided_at, id`: a stable sort by the second key, then by the first.
unfoldable pub decisions_with : Db → ℕ → ℕ → List (Decision × Bool)
decisions_with db o version_id =
    sort_by decided (sort_by decision_id (joined_decisions db o version_id db.decisions))

-- Whether the decision is among the impacts stored for the revocation.
abbrev pub is_stored : ℕ → ℕ → Decision → List RevocationImpact → Bool
is_stored o revocation_id d impacts =
    any
      (λ (i : RevocationImpact).
        i.organization_id == o && i.revocation_id == revocation_id && i.decision_id == d.id)
      impacts

abbrev pub impacted : ℕ → ℕ → List RevocationImpact → Decision × Bool → ImpactedDecision
impacted o revocation_id impacts (d, relied_on) = record {
  decision_id = d.id;
  snapshot_id = d.snapshot_id;
  decided_at = d.decided_at;
  relied_on = relied_on;
  recorded_at_revocation = is_stored o revocation_id d impacts;
  decided_after_revocation = not (is_stored o revocation_id d impacts);
}

abbrev pub is_relied_on : ImpactedDecision → Bool
is_relied_on d = d.relied_on

-- `_report`
unfoldable pub report : Db → ℕ → FactRevocation → RevocationReport
report db o r =
    let decisions = map (impacted o r.id db.impacts) (decisions_with db o r.fact_version_id) in
    record {
      revocation_id = r.id;
      fact_version_id = r.fact_version_id;
      reason = r.reason;
      revoked_by_user_id = r.revoked_by_user_id;
      revoked_at = r.revoked_at;
      decisions = decisions;
      decisions_relied_on = count is_relied_on decisions;
      decisions_with_version_in_context = length decisions;
    }

-- The revocation of a version, if it has one.
abbrev pub revokes : ℕ → ℕ → FactRevocation → Bool
revokes o version_id r = r.organization_id == o && r.fact_version_id == version_id

abbrev pub impact_row : ℕ → ℕ → ℕ → Decision × Bool → RevocationImpact
impact_row o revocation_id version_id (d, relied_on) = record {
  organization_id = o;
  revocation_id = revocation_id;
  decision_id = d.id;
  snapshot_id = d.snapshot_id;
  fact_version_id = version_id;
  relied_on = relied_on;
}

-- The version that a request names, or the latest one.
abbrev pub target : Db → ℕ → ℕ → Option ℕ → Option FactVersion
target db o fact_id none = latest_version o fact_id db.versions
target db o fact_id (some version_id) = get_version db o version_id

-- The part of `revoke` that writes; `new_id` and `now` are the database's.
unfoldable pub add_revocation : Db → TenantContext → ℕ → ℕ → ℕ → String → RevocationReport × Db
add_revocation db ctx new_id now version_id reason =
    let o = ctx.organization_id in
    let row : FactRevocation = record {
      id = new_id;
      organization_id = o;
      fact_version_id = version_id;
      reason = reason;
      revoked_by_user_id = ctx.user_id;
      agent_client_id = ctx.agent_client_id;
      revoked_at = now;
    } in
    let db' : Db = record db {
      revocations = row ∷ db.revocations;
      impacts = map (impact_row o new_id version_id) (decisions_with db o version_id) ++ db.impacts;
    } in
    (report db' o row, db')

unfoldable pub revoke :
    Db → TenantContext → ℕ → ℕ → ℕ → Option ℕ → String → Result (RevocationReport × Db)
revoke db ctx new_id now fact_id version_id reason = do
  let o = ctx.organization_id
  raise_if (str_length reason == 0 || ltb max_reason_chars (str_length reason)) validation_failed
  role ← require_permission db ctx write_facts
  also ← require_permission db ctx read_decisions
  fact ← or_raise (get_fact db o fact_id) not_found
  version ← or_raise (target db o fact_id version_id) not_found
  raise_if
      (not (version.fact_id == fact_id)
        || not (
            scope_in (visible_privacy_scopes role (ctx.max_privacy_scope ∷ []))
              version.privacy_scope))
      not_found
  raise_if (any (revokes o version.id) db.revocations) conflict
  ok (add_revocation db ctx new_id now version.id reason)

-- `_readable`
unfoldable pub readable : Db → TenantContext → Result (List PrivacyScope)
readable db ctx = do
  role ← require_permission db ctx read_facts
  also ← require_permission db ctx read_decisions
  ok (visible_privacy_scopes role (ctx.max_privacy_scope ∷ []))

-- The join of a revocation with a version that the caller may see.
abbrev pub is_visible : Db → ℕ → List PrivacyScope → (FactVersion → Bool) → FactRevocation → Bool
is_visible db o visible wanted r =
    r.organization_id == o
    && any
        (λ (v : FactVersion).
          v.organization_id == o
          && v.id == r.fact_version_id
          && scope_in visible v.privacy_scope
          && wanted v)
        db.versions

abbrev pub revoked : FactRevocation → ℕ
revoked r = r.revoked_at

unfoldable pub impact_of_fact : Db → TenantContext → ℕ → Result (List RevocationReport)
impact_of_fact db ctx fact_id = do
  let o = ctx.organization_id
  visible ← readable db ctx
  fact ← or_raise (get_fact db o fact_id) not_found
  ok (
      map (report db o) (
        sort_by revoked
          (filter (is_visible db o visible (λ v. v.fact_id == fact_id)) db.revocations)))

unfoldable pub impact_of_version : Db → TenantContext → ℕ → Result RevocationReport
impact_of_version db ctx version_id = do
  let o = ctx.organization_id
  visible ← readable db ctx
  row ←
      or_raise (find? (is_visible db o visible (λ v. v.id == version_id)) db.revocations) not_found
  ok (report db o row)

-- ===== src/Revocations/Tests.antt =====
-- Version 50 is revoked after decision 80 relied on it (backend/app/services/revocations.py).
use context_ledger.Base.{
  ◌≡◌, ◌≢◌, refl, true, false, none, some, [], ◌∷◌, map, List, ◌==◌, ◌&&◌, leb, if◌then◌else◌, ℕ,
}
use context_ledger.Errors.{ok, err, conflict}
use context_ledger.Privacy.{internal}
use context_ledger.Roles.{engineer, TenantContext, has_permission}
use context_ledger.Versions.{FactVersion}
use context_ledger.Db.{Db, Decision}
use context_ledger.Authorization.{get_user, get_membership, require_permission}
use context_ledger.Visibility.{narrow, visible_privacy_scopes}
use context_ledger.EvidenceLinks.{get_version}
use context_ledger.Recording.{get_fact}
use context_ledger.Revocations.{
  RevocationReport, ImpactedDecision, joined_decisions, decisions_with, report, add_revocation,
  revoke,
}
use context_ledger.Revocations.Effect.{selected, revoke-valid_at}
use context_ledger.Revocations.Once.{Revoking, revoke_all, revoke_once}

abbrev version : ℕ → FactVersion
version id = record {
  id = id;
  organization_id = 1;
  fact_id = 40;
  version = 1;
  value = 1;
  source_id = 20;
  valid_from = 900;
  valid_until = none;
  observed_at = 1200;
  recorded_at = 1210;
  valid_until_recorded_at = none;
  supersedes_id = none;
  authority = 50;
  confidence = 1000;
  privacy_scope = internal;
}

abbrev decision : ℕ → ℕ → Decision
decision i decided_at = record {
  id = i;
  organization_id = 1;
  snapshot_id = 70;
  decided_by_user_id = 10;
  agent = none;
  action = "credit.approve";
  outcome = 3;
  rationale = none;
  decided_at = decided_at;
  receipt_sha256 = 0;
}

abbrev db : Db
db = record {
  users = record { id = 10; is_active = true } ∷ [];
  organizations = record { id = 1; slug = "acme"; name = "Acme" } ∷ [];
  memberships = record { organization_id = 1; user_id = 10; role = engineer } ∷ [];
  sources = [];
  entities = [];
  facts = record { id = 40; organization_id = 1; entity_id = 30; property = "status" } ∷ [];
  versions = version 51 ∷ version 50 ∷ [];
  evidence = [];
  links = [];
  contradictions = [];
  revocations = [];
  decisions = decision 81 1500 ∷ decision 80 1400 ∷ [];
  snapshots = [];
  snapshot_facts =
      record {
        organization_id = 1;
        snapshot_id = 70;
        fact_version_id = 50;
        position = 1;
        ranking = 0;
      }
      ∷ [];
  decision_facts = record { organization_id = 1; decision_id = 80; fact_version_id = 50 } ∷ [];
  impacts = [];
}

abbrev ctx : TenantContext
ctx = record {
  organization_id = 1;
  user_id = 10;
  role = engineer;
  scopes = none;
  max_privacy_scope = none;
  agent_client_id = none;
}

-- The first of two revocations, and the second.
abbrev first : RevocationReport × Db
first = add_revocation db ctx 90 2000 50 "wrong customer"

abbrev second : RevocationReport × Db
second = add_revocation first.1 ctx 91 3000 51 "wrong customer"

-- The version is revoked once more, which is refused.
abbrev between : List Revoking
between =
    record {
      ctx = ctx;
      new_id = 95;
      now = 2500;
      fact_id = 40;
      version_id = some 50;
      reason = "again";
    }
    ∷ []

first_revoked : revoke db ctx 90 2000 40 (some 50) "wrong customer" ≡ ok first
unfolding revoke get_user get_membership require_permission has_permission narrow
    visible_privacy_scopes get_version get_fact
first_revoked = refl

second_revoked :
    revoke (revoke_all between first.1) ctx 91 3000 40 (some 51) "wrong customer" ≡ ok second
unfolding revoke_all revoke get_user get_membership require_permission has_permission narrow
    visible_privacy_scopes get_version get_fact add_revocation
second_revoked = refl

again_refused : revoke first.1 ctx 91 3000 40 (some 50) "wrong customer" ≡ err conflict
unfolding revoke get_user get_membership require_permission has_permission narrow
    visible_privacy_scopes get_version get_fact add_revocation
again_refused = refl

abbrev listed : ImpactedDecision → ℕ
listed d = d.decision_id

two_listed : map listed first.0.decisions ≡ (80 ∷ 81 ∷ [])
unfolding add_revocation report decisions_with joined_decisions
two_listed = refl

revoke_once_example : second.0.fact_version_id ≢ first.0.fact_version_id
revoke_once_example =
    revoke_once db first.1 second.1 ctx ctx 90 91 2000 3000 40 40 (some 50) (some 51)
      "wrong customer" "wrong customer" first.0 second.0 between first_revoked refl second_revoked

revoke-valid_at_example :
    (selected first.1 1 (version 50) 1000 none ≡ (
      if 1 == 1 && first.0.fact_version_id == 50
      then false
      else selected db 1 (version 50) 1000 none))
    × (selected first.1 1 (version 50) 1000 (some 1999) ≡ (
        if 1 == 1 && first.0.fact_version_id == 50 && leb 2000 1999
        then false
        else selected db 1 (version 50) 1000 (some 1999)))
revoke-valid_at_example =
    revoke-valid_at db first.1 ctx 90 2000 40 (some 50) "wrong customer" first.0 (version 50) 1 1000
      1999 first_revoked

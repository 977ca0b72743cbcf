-- ===== src/Resolution/Tests.antt =====
-- A contradiction that is resolved, and a later attempt to dismiss it
-- (backend/app/services/contradictions.py).
use context_ledger.Base.{◌≡◌, refl, true, false, none, some, [], ◌∷◌}
use context_ledger.Errors.{ok}
use context_ledger.Privacy.{internal}
use context_ledger.Roles.{engineer, TenantContext, has_permission}
use context_ledger.Db.{Db, Contradiction, open_status, resolved, dismissed, value_conflict_kind}
use context_ledger.Authorization.{get_user, get_membership, require_permission}
use context_ledger.Visibility.{narrow, visible_privacy_scopes}
use context_ledger.Resolution.{
  is_open, visible, find_row, close, store, resolve_locked, resolve_row, Closing, resolve_all,
}
use context_ledger.Resolution.Closed.{row_of, resolve_row-final}

abbrev found : Contradiction
found = record {
  id = 60;
  organization_id = 1;
  entity_id = 30;
  left_version_id = 50;
  right_version_id = 51;
  kind = value_conflict_kind;
  preferred_version_id = some 51;
  privacy_scope = internal;
  status = open_status;
  resolution_note = none;
  resolved_by_user_id = none;
  resolved_at = none;
}

abbrev db : Db
db = record {
  users = record { id = 10; is_active = true } ∷ [];
  organizations = record { id = 1; slug = "acme"; name = "Acme" } ∷ [];
  memberships = record { organization_id = 1; user_id = 10; role = engineer } ∷ [];
  sources = [];
  entities = [];
  facts = [];
  versions = [];
  evidence = [];
  links = [];
  contradictions = found ∷ [];
  revocations = [];
  decisions = [];
  snapshots = [];
  snapshot_facts = [];
  decision_facts = [];
  impacts = [];
}

abbrev ctx : TenantContext
ctx = record {
  organization_id = 1;
  user_id = 10;
  role = engineer;
  scopes = none;
  max_privacy_scope = none;
  agent_client_id = none;
}

abbrev reconciled : Contradiction
reconciled = close ctx resolved (some "billing was right") 500 found

abbrev after : Db
after = record db { contradictions = reconciled ∷ [] }

abbrev dismissal : Closing
dismissal = record { ctx = ctx; id = 60; status = dismissed; note = none; now = 600 }

closed_once : resolve_row db ctx 60 resolved (some "billing was right") 500 ≡ ok (reconciled, after)
unfolding resolve_row resolve_locked find_row store visible get_user get_membership
    require_permission has_permission narrow visible_privacy_scopes
closed_once = refl

resolve_row-final_example :
    (row : Contradiction) × (row_of 1 60 db.contradictions ≡ some row)
    × (is_open row.status ≡ true)
    × (is_open resolved ≡ false)
    × (reconciled ≡ close ctx resolved (some "billing was right") 500 row)
    × (row_of 1 60 (resolve_all (dismissal ∷ []) after).contradictions ≡ some reconciled)
resolve_row-final_example =
    resolve_row-final db after ctx 60 resolved (some "billing was right") 500 reconciled
      (dismissal ∷ []) (refl, tt) closed_once

-- ===== src/Resolution.antt =====
-- backend/app/services/contradictions.py (`ContradictionService`): reading and closing a stored
-- contradiction. `resolve` locks the row, so closings of one contradiction run one after another.
-- The texts that a view adds for display are not modelled.
pub mod Closed
mod Tests
use Prim.Native.String.{String}
use context_ledger.Base.{
  ℕ, Bool, true, false, not, ◌&&◌, Option, none, some, List, [], ◌∷◌, find?, ◌==◌, if◌then◌else◌,
}
use context_ledger.Errors.{
  Result, ok, validation_failed, not_found, conflict, raise_if, or_raise, commit, ◌>>=◌, ◌>>◌,
}
use context_ledger.Privacy.{PrivacyScope, scope_in}
use context_ledger.Roles.{TenantContext, Permission, read_facts, write_facts}
use context_ledger.Db.{Db, Contradiction, ContradictionStatus, open_status, resolved, dismissed}
use context_ledger.Authorization.{require_permission}
use context_ledger.Visibility.{visible_privacy_scopes}

abbrev pub is_open : ContradictionStatus → Bool
is_open open_status = true
is_open resolved = false
is_open dismissed = false

-- `_visible`
unfoldable pub visible : Db → TenantContext → Permission → Result (List PrivacyScope)
visible db ctx permission = do
  role ← require_permission db ctx permission
  ok (visible_privacy_scopes role (ctx.max_privacy_scope ∷ []))

abbrev pub is_wanted : ℕ → ℕ → List PrivacyScope → Contradiction → Bool
is_wanted o id scopes c = c.organization_id == o && c.id == id && scope_in scopes c.privacy_scope

-- `_row`
unfoldable pub find_row : Db → TenantContext → ℕ → List PrivacyScope → Result Contradiction
find_row db ctx id scopes =
    or_raise (find? (is_wanted ctx.organization_id id scopes) db.contradictions) not_found

unfoldable pub get_contradiction : Db → TenantContext → ℕ → Result Contradiction
get_contradiction db ctx id = do scopes ← visible db ctx read_facts; find_row db ctx id scopes

-- The assignments to the row.
abbrev pub close :
    TenantContext → ContradictionStatus → Option String → ℕ → Contradiction → Contradiction
close ctx status note now c = record c {
  status = status;
  resolution_note = note;
  resolved_by_user_id = some ctx.user_id;
  resolved_at = some now;
}

-- The row of an identifier is written back.
unfoldable pub store : Contradiction → List Contradiction → List Contradiction
store c [] = []
store c (d ∷ ds) =
    let rest = store c ds in
    if d.organization_id == c.organization_id && d.id == c.id then c ∷ rest else d ∷ rest

-- The part of `resolve` behind the lock; `now` is the reading of the clock.
unfoldable pub resolve_locked :
    Db
    → TenantContext
    → ContradictionStatus
    → Option String
    → ℕ
    → Contradiction
    → Result (Contradiction × Db)
resolve_locked db ctx status note now row = do
  raise_if (not (is_open row.status)) conflict
  let closed = close ctx status note now row
  ok (closed, record db { contradictions = store closed db.contradictions })

unfoldable pub resolve_row :
    Db → TenantContext → ℕ → ContradictionStatus → Option String → ℕ → Result (Contradiction × Db)
resolve_row db ctx id status note now = do
  raise_if (is_open status) validation_failed
  scopes ← visible db ctx write_facts
  row ← find_row db ctx id scopes
  resolve_locked db ctx status note now row

-- A request to close a contradiction.
pub record Closing : Type 0 where
  pub ctx : TenantContext
  pub id : ℕ
  pub status : ContradictionStatus
  pub note : Option String
  pub now : ℕ

unfoldable pub resolve_all : List Closing → Db → Db
resolve_all [] db = db
resolve_all (r ∷ rs) db =
    resolve_all rs (commit db (resolve_row db r.ctx r.id r.status r.note r.now))

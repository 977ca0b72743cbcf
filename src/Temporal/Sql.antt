-- ===== src/Temporal/Sql.antt =====
-- The SQL condition against the reference semantics (backend/app/repositories/temporal.py,
-- backend/app/temporal/reference.py).
use context_ledger.Base.{ℕ, ◌≡◌, ◌&&◌, Option, none, some, List, arith, Option-cases, inl, inr}
use context_ledger.Versions.{FactVersion, to_snapshot}
use context_ledger.Temporal.{
  is_known, as_known, is_valid_at, not_revoked_condition, valid_at_condition,
}

-- For every version, instant and knowledge time, the SQL condition holds exactly if the version is
-- not revoked as known then, is known then, and as it looked then is valid at the instant.
pub valid_at_condition-eq_reference :
    (revoked_at : List ℕ) (v : FactVersion) (t : ℕ) (k : Option ℕ)
    → valid_at_condition revoked_at v t k ≡ (
        not_revoked_condition revoked_at k
        && is_known (to_snapshot v) k
        && is_valid_at (as_known (to_snapshot v) k) t)
unfolding valid_at_condition
valid_at_condition-eq_reference revoked_at v t none = elim (Option-cases v.valid_until) [
  | inl e ↦ ground arith
  | inr (u, e) ↦ ground arith
]
valid_at_condition-eq_reference revoked_at v t (some k) = ground arith

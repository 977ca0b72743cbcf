-- ===== src/Visibility.antt =====
-- backend/app/domain/retrieval.py: which privacy scopes a caller may see.
pub mod Exact
mod Tests
use context_ledger.Base.{ℕ, ◌+◌, Option, none, some, List, [], ◌∷◌, take, min}
use context_ledger.Privacy.{
  PrivacyScope, internal, confidential, restricted, privacy_order, privacy_index,
}
use context_ledger.Roles.{MembershipRole, admin, engineer, viewer}

-- `ROLE_MAX_PRIVACY`
abbrev pub role_max_privacy : MembershipRole → PrivacyScope
role_max_privacy viewer = internal
role_max_privacy engineer = confidential
role_max_privacy admin = restricted

-- The loop over the ceilings.
unfoldable pub narrow : ℕ → List (Option PrivacyScope) → ℕ
narrow ceiling [] = ceiling
narrow ceiling (none ∷ rest) = narrow ceiling rest
narrow ceiling (some requested ∷ rest) = narrow (min ceiling (privacy_index requested)) rest

unfoldable pub visible_privacy_scopes :
    MembershipRole → List (Option PrivacyScope) → List PrivacyScope
unfolding narrow
visible_privacy_scopes role ceilings =
    take (narrow (privacy_index (role_max_privacy role)) ceilings + 1) privacy_order

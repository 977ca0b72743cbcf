-- ===== src/Visibility/Tests.antt =====
-- Runs and instances for the visibility rule of backend/app/domain/retrieval.py.
use context_ledger.Base.{◌≤◌, ◌≡◌, ◌↔◌, refl, true, Option, none, some, List, [], ◌∷◌}
use context_ledger.Privacy.{PrivacyScope, public, internal, confidential, privacy_index, scope_in}
use context_ledger.Roles.{engineer, viewer}
use context_ledger.Visibility.{role_max_privacy, visible_privacy_scopes}
use context_ledger.Visibility.Exact.{UnderAll, visible_privacy_scopes_exact}

abbrev ceilings : List (Option PrivacyScope)
ceilings = none ∷ some internal ∷ []

narrowed : visible_privacy_scopes engineer ceilings ≡ public ∷ internal ∷ []
unfolding visible_privacy_scopes
narrowed = refl

never_widened : visible_privacy_scopes viewer (some confidential ∷ []) ≡ public ∷ internal ∷ []
unfolding visible_privacy_scopes
never_widened = refl

visible_privacy_scopes_exact_example :
    (scope_in (visible_privacy_scopes engineer ceilings) internal ≡ true) ↔ (
      (privacy_index internal ≤ privacy_index (role_max_privacy engineer))
      × UnderAll internal ceilings)
visible_privacy_scopes_exact_example = visible_privacy_scopes_exact engineer ceilings internal

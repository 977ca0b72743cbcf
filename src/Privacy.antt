-- ===== src/Privacy.antt =====
-- Privacy scopes: `PrivacyScope` of backend/app/domain/facts.py, and its order in
-- backend/app/domain/retrieval.py. (`visible_privacy_scopes` is in Visibility.antt.)
use context_ledger.Base.{ℕ, Bool, List, [], ◌∷◌, any, ◌==◌, leb, if◌then◌else◌}

pub data PrivacyScope : Type 0 where
  public internal confidential restricted : PrivacyScope

-- `PRIVACY_ORDER`, least to most sensitive.
abbrev pub privacy_order : List PrivacyScope
privacy_order = public ∷ internal ∷ confidential ∷ restricted ∷ []

-- `PRIVACY_ORDER.index`
abbrev pub privacy_index : PrivacyScope → ℕ
privacy_index public = 0
privacy_index internal = 1
privacy_index confidential = 2
privacy_index restricted = 3

-- `scope in scopes`
abbrev pub scope_in : List PrivacyScope → PrivacyScope → Bool
scope_in scopes s = any (λ t. privacy_index s == privacy_index t) scopes

-- `max(a, b, key=PRIVACY_ORDER.index)`: the first of two equals.
abbrev pub max_privacy : PrivacyScope → PrivacyScope → PrivacyScope
max_privacy a b = if leb (privacy_index b) (privacy_index a) then a else b

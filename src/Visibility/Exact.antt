-- ===== src/Visibility/Exact.antt =====
-- What a caller may see, exactly.
use context_ledger.Base.{
  ℕ, zero, suc, ◌+◌, ◌≤◌, ◌≡◌, ◌↔◌, true, Option, none, some, List, [], ◌∷◌, take, min, arith,
}
use context_ledger.Privacy.{PrivacyScope, privacy_order, privacy_index, scope_in}
use context_ledger.Roles.{MembershipRole}
use context_ledger.Visibility.{role_max_privacy, narrow, visible_privacy_scopes}

-- No ceiling that is given lies below `s`.
abbrev pub UnderAll : PrivacyScope → List (Option PrivacyScope) → Type 0
UnderAll s [] = Unit
UnderAll s (none ∷ rest) = UnderAll s rest
UnderAll s (some c ∷ rest) = (privacy_index s ≤ privacy_index c) × UnderAll s rest

le-narrow :
    (s : PrivacyScope) (n : ℕ) (cs : List (Option PrivacyScope))
    → (privacy_index s ≤ narrow n cs) ↔ ((privacy_index s ≤ n) × UnderAll s cs)
unfolding narrow
le-narrow s n [] = (λ h. (h, tt), λ h. h.0)
le-narrow s n (none ∷ cs) = le-narrow s n cs
le-narrow s n (some c ∷ cs) =
    let ih = le-narrow s (min n (privacy_index c)) cs in
    (
      λ h. (omega (arith, (ih.0 h).0), (omega (arith, (ih.0 h).0), (ih.0 h).1)),
      λ h. ih.1 (omega arith, h.1.1),
    )

scope_in-take :
    (s : PrivacyScope) (n : ℕ)
    → (scope_in (take (n + 1) privacy_order) s ≡ true) ↔ (privacy_index s ≤ n)
scope_in-take s zero = ground arith
scope_in-take s (suc zero) = ground arith
scope_in-take s (suc (suc zero)) = ground arith
scope_in-take s (suc (suc (suc n))) = ground arith

-- A caller sees a scope exactly if it is no more sensitive than the role's maximum and than every
-- ceiling that is given: ceilings narrow what the role allows and never widen it.
pub visible_privacy_scopes_exact :
    (role : MembershipRole) (ceilings : List (Option PrivacyScope)) (s : PrivacyScope)
    → (scope_in (visible_privacy_scopes role ceilings) s ≡ true)
      ↔ ((privacy_index s ≤ privacy_index (role_max_privacy role)) × UnderAll s ceilings)
unfolding visible_privacy_scopes
visible_privacy_scopes_exact role ceilings s =
    let limit = privacy_index (role_max_privacy role) in
    (
      λ h. (le-narrow s limit ceilings).0 ((scope_in-take s (narrow limit ceilings)).0 h),
      λ h. (scope_in-take s (narrow limit ceilings)).1 ((le-narrow s limit ceilings).1 h),
    )

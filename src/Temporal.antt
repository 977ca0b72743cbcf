-- ===== src/Temporal.antt =====
-- backend/app/temporal/reference.py: what was known and valid at a time, and the SQL conditions of
-- backend/app/repositories/temporal.py that must agree with it.
pub mod Sql
pub mod Chain
pub mod Resolve
pub mod Change
mod Tests
use context_ledger.Base.{
  ℕ, Bool, true, false, not, ◌&&◌, ◌||◌, Option, none, some, List, [], ◌∷◌, map, filter, any, ◌==◌,
  leb, ltb, if◌then◌else◌,
}
use context_ledger.Base.Sort.{sort_by}
use context_ledger.Errors.{
  Result, ok, err, raise_if, validation_failed, invariant_violation, ◌>>=◌, ◌>>◌,
}
use context_ledger.Facts.{Stamp, require_aware, require_aware_opt, ends_after}
use context_ledger.Versions.{FactVersion, VersionSnapshot}

-- `x is None or x <= known_at` for a time that may be missing
abbrev pub reached : Option ℕ → ℕ → Bool
reached none k = true
reached (some r) k = leb r k

abbrev pub is_known : VersionSnapshot → Option ℕ → Bool
is_known v none = true
is_known v (some k) = leb v.recorded_at k

abbrev pub as_known : VersionSnapshot → Option ℕ → VersionSnapshot
as_known v none = v
as_known v (some k) =
    if reached v.valid_until_recorded_at k
    then v
    else record v { valid_until = none; valid_until_recorded_at = none }

abbrev pub is_valid_at : VersionSnapshot → ℕ → Bool
is_valid_at v instant = leb v.valid_from instant && ends_after instant v.valid_until

-- The comprehension of `history_as_known`.
unfoldable pub known_versions : List VersionSnapshot → Option ℕ → List VersionSnapshot
known_versions versions known_at =
    map (λ v. as_known v known_at)
      (filter (λ v. is_known v known_at) (sort_by (λ (v : VersionSnapshot). v.version) versions))

unfoldable pub history_as_known :
    List VersionSnapshot → Option Stamp → Result (List VersionSnapshot)
unfolding known_versions require_aware_opt
history_as_known versions known_at = do
  k ← require_aware_opt known_at
  ok (known_versions versions k)

-- `if len(matches) > 1: raise …; return matches[0] if matches else None`
unfoldable pub only_match : List VersionSnapshot → Result (Option VersionSnapshot)
only_match [] = ok none
only_match (v ∷ []) = ok (some v)
only_match (v ∷ w ∷ rest) = err invariant_violation

unfoldable pub resolve :
    List VersionSnapshot → Stamp → Option Stamp → Result (Option VersionSnapshot)
unfolding history_as_known require_aware only_match
resolve versions valid_at known_at = do
  t ← require_aware valid_at
  history ← history_as_known versions known_at
  only_match (filter (λ v. is_valid_at v t) history)

abbrev pub id_of : Option VersionSnapshot → Option ℕ
id_of none = none
id_of (some v) = some v.id

-- `before_id == after_id`
abbrev pub same_id : Option ℕ → Option ℕ → Bool
same_id none none = true
same_id (some a) (some b) = a == b
same_id _ _ = false

abbrev pub is_empty {ℓ} : {A : Type ℓ} → List A → Bool
is_empty [] = true
is_empty (x ∷ xs) = false

abbrev pub Change : Type 0
Change = Option VersionSnapshot × Option VersionSnapshot × List VersionSnapshot

unfoldable pub change_between :
    List VersionSnapshot → Stamp → Stamp → Option Stamp → Result (Option Change)
unfolding resolve
change_between versions start end known_at = do
  s ← require_aware start
  e ← require_aware end
  raise_if (leb e s) validation_failed
  known ← history_as_known versions known_at
  before ← resolve known start none
  after ← resolve known end none
  let transitions = filter (λ v. ltb s v.valid_from && leb v.valid_from e) known
  ok (
      if same_id (id_of before) (id_of after) && is_empty transitions
      then none
      else some (before, after, transitions))

-- `not_revoked_condition`: the version's revocation times are given as a list.
unfoldable pub not_revoked_condition : List ℕ → Option ℕ → Bool
not_revoked_condition revoked_at none = is_empty revoked_at
not_revoked_condition revoked_at (some k) = not (any (λ r. leb r k) revoked_at)

-- A comparison with NULL is not true.
abbrev pub after_null : Option ℕ → ℕ → Bool
after_null none k = false
after_null (some r) k = ltb k r

abbrev pub is_null : Option ℕ → Bool
is_null none = true
is_null (some u) = false

unfoldable pub valid_at_condition : List ℕ → FactVersion → ℕ → Option ℕ → Bool
unfolding not_revoked_condition
valid_at_condition revoked_at v valid_at none =
    leb v.valid_from valid_at
    && (is_null v.valid_until || after_null v.valid_until valid_at)
    && not_revoked_condition revoked_at none
valid_at_condition revoked_at v valid_at (some k) =
    not_revoked_condition revoked_at (some k)
    && leb v.recorded_at k
    && leb v.valid_from valid_at
    && (is_null v.valid_until
        || after_null v.valid_until_recorded_at k
        || after_null v.valid_until valid_at)

-- ===== src/Temporal/Change.antt =====
-- `change_between` against `resolve` (backend/app/temporal/reference.py).
use context_ledger.Base.{
  ℕ, ◌≤◌, ◌≡◌, refl, sym, ◌∙◌, ap, Bool, true, ◌&&◌, Option, none, some, List, [], ◌∷◌, map, filter,
  count, leb, ltb, if◌then◌else◌, All, arith,
}
use context_ledger.Base.Sort.{sort_by, count-sort_by}
use context_ledger.Base.Sorted.{IsSorted, sort_by-IsSorted, filter-IsSorted, sort_by-sorted}
use context_ledger.Errors.{Result, ok, raise_if, validation_failed, ◌>>◌}
use context_ledger.Facts.{aware}
use context_ledger.Versions.{FactVersion, VersionSnapshot}
use context_ledger.Temporal.{
  is_known, as_known, is_valid_at, known_versions, only_match, resolve, id_of, same_id, is_empty,
  Change, change_between,
}
use context_ledger.Temporal.Chain.{IsChain}
use context_ledger.Temporal.Resolve.{as_of, stamp_opt, snapshots, version_of, resolve-eq-as_of}

as_known-version : (v : VersionSnapshot) (k : Option ℕ) → version_of (as_known v k) ≡ v.version
as_known-version v none = refl
as_known-version v (some k) = ground arith

All-as_known :
    (n : ℕ) (k : Option ℕ) (xs : List VersionSnapshot)
    → All (λ (y : VersionSnapshot). n ≤ y.version) xs
    → All (λ (y : VersionSnapshot). n ≤ y.version) (map (λ v. as_known v k) xs)
All-as_known n k [] a = tt
All-as_known n k (x ∷ xs) (b, a) = (rw (as_known-version x k) b, All-as_known n k xs a)

map-IsSorted :
    (k : Option ℕ) (xs : List VersionSnapshot)
    → IsSorted version_of xs
    → IsSorted version_of (map (λ v. as_known v k) xs)
map-IsSorted k [] s = tt
map-IsSorted k (x ∷ xs) (a, s) =
    (rw (as_known-version x k) (All-as_known x.version k xs a), map-IsSorted k xs s)

known-IsSorted :
    (k : Option ℕ) (xs : List VersionSnapshot) → IsSorted version_of (known_versions xs k)
unfolding known_versions
known-IsSorted k xs =
    map-IsSorted k _
      (filter-IsSorted version_of (λ v. is_known v k) _ (sort_by-IsSorted version_of xs))

filter-all : (xs : List VersionSnapshot) → filter (λ (v : VersionSnapshot). is_known v none) xs ≡ xs
filter-all [] = refl
filter-all (x ∷ xs) = ap (λ r. x ∷ r) (filter-all xs)

map-same : (xs : List VersionSnapshot) → map (λ (v : VersionSnapshot). as_known v none) xs ≡ xs
map-same [] = refl
map-same (x ∷ xs) = ap (λ r. x ∷ r) (map-same xs)

-- Knowing all of what was known at `k` is knowing what was known at `k`.
known-again :
    (k : Option ℕ) (xs : List VersionSnapshot)
    → known_versions (known_versions xs k) none ≡ known_versions xs k
known-again k xs =
    unfold known_versions in
    rw (sort_by-sorted version_of _ (unfold known_versions in known-IsSorted k xs))
      (filter_map_same _)
  where
    filter_map_same :
        (ys : List VersionSnapshot)
        → map
            (λ (v : VersionSnapshot). as_known v none)
            (filter (λ (v : VersionSnapshot). is_known v none) ys)
          ≡ ys
    filter_map_same ys = rw filter-all (map-same ys)

resolve-known :
    (t : ℕ) (k : Option ℕ) (xs : List VersionSnapshot)
    → resolve (known_versions xs k) (aware t) none ≡ resolve xs (aware t) (stamp_opt k)
unfolding resolve
resolve-known t none xs =
    ap (λ ys. only_match (filter (λ v. is_valid_at v t) ys)) (known-again none xs)
resolve-known t (some k) xs =
    ap (λ ys. only_match (filter (λ v. is_valid_at v t) ys)) (known-again (some k) xs)

-- Takes effect after `s` and by `e`, as far as known at `k`.
unfoldable pub takes_effect : ℕ → ℕ → Option ℕ → VersionSnapshot → Bool
takes_effect s e k v = is_known v k && (ltb s v.valid_from && leb v.valid_from e)

transitions-count :
    (s e : ℕ) (k : Option ℕ) (xs : List VersionSnapshot)
    → is_empty (
        filter
          (λ (v : VersionSnapshot). ltb s v.valid_from && leb v.valid_from e)
          (map (λ v. as_known v k) (filter (λ v. is_known v k) xs)))
      ≡ true
    → count (takes_effect s e k) xs ≡ 0
unfolding takes_effect
transitions-count s e k [] h = refl
transitions-count s e none (x ∷ xs) h = ground (arith, transitions-count s e none xs)
transitions-count s e (some k) (x ∷ xs) h = ground (arith, transitions-count s e (some k) xs)

-- With no version that takes effect between, and the same answer at both ends, the answer is the
-- same in between.
as_of-constant :
    (s t e : ℕ) (k : Option ℕ) (vs : List FactVersion)
    → s ≤ t
    → t ≤ e
    → count (takes_effect s e k) (snapshots vs) ≡ 0
    → same_id (id_of (as_of s k vs)) (id_of (as_of e k vs)) ≡ true
    → as_of t k vs ≡ as_of s k vs
unfolding as_of takes_effect
as_of-constant s t e k [] st te h same = refl
as_of-constant s t e k (v ∷ older) st te h same = ground (arith, as_of-constant s t e k older)

-- `change_between` once its inputs are instants and both ends are resolved.
report :
    ℕ
    → ℕ
    → Option VersionSnapshot
    → Option VersionSnapshot
    → List VersionSnapshot
    → Result (Option Change)
report s e before after known = do
  raise_if (leb e s) validation_failed
  let transitions = filter (λ (v : VersionSnapshot). ltb s v.valid_from && leb v.valid_from e) known
  ok (
      if same_id (id_of before) (id_of after) && is_empty transitions
      then none
      else some (before, after, transitions))

resolve-known-as_of :
    (t : ℕ) (k : Option ℕ) (vs : List FactVersion)
    → IsChain vs
    → resolve (known_versions (snapshots vs) k) (aware t) none ≡ ok (as_of t k vs)
resolve-known-as_of t k vs h = resolve-known t k (snapshots vs) ∙ resolve-eq-as_of t k vs h

change_between-eq-report :
    (s e : ℕ) (k : Option ℕ) (vs : List FactVersion)
    → IsChain vs
    → change_between (snapshots vs) (aware s) (aware e) (stamp_opt k)
      ≡ report s e (as_of s k vs) (as_of e k vs) (known_versions (snapshots vs) k)
unfolding change_between report
change_between-eq-report s e none vs h =
    rw (resolve-known-as_of s none vs h, resolve-known-as_of e none vs h) refl
change_between-eq-report s e (some k) vs h =
    rw (resolve-known-as_of s (some k) vs h, resolve-known-as_of e (some k) vs h) refl

report-none :
    (s e : ℕ) (before after : Option VersionSnapshot) (known : List VersionSnapshot)
    → report s e before after known ≡ ok none
    → (same_id (id_of before) (id_of after) ≡ true)
      × (is_empty (filter (λ (v : VersionSnapshot). ltb s v.valid_from && leb v.valid_from e) known)
          ≡ true)
unfolding report
report-none s e before after known h = ground arith

-- If the versions are a chain and `change_between` reports no change between two instants, then
-- `resolve` gives the same answer at every instant from the first to the second.
pub change_between-none_constant :
    (s t e : ℕ) (k : Option ℕ) (vs : List FactVersion)
    → IsChain vs
    → change_between (snapshots vs) (aware s) (aware e) (stamp_opt k) ≡ ok none
    → s ≤ t
    → t ≤ e
    → resolve (snapshots vs) (aware t) (stamp_opt k)
      ≡ resolve (snapshots vs) (aware s) (stamp_opt k)
change_between-none_constant s t e k vs h none_changed st te =
    let parts =
      report-none s e (as_of s k vs) (as_of e k vs) (known_versions (snapshots vs) k)
        (sym (change_between-eq-report s e k vs h) ∙ none_changed) in
    resolve-eq-as_of t k vs h
    ∙ ap ok (as_of-constant s t e k vs st te (no_effect parts.1) parts.0)
    ∙ sym (resolve-eq-as_of s k vs h)
  where
    no_effect :
        is_empty (
            filter
              (λ (v : VersionSnapshot). ltb s v.valid_from && leb v.valid_from e)
              (known_versions (snapshots vs) k))
          ≡ true
        → count (takes_effect s e k) (snapshots vs) ≡ 0
    no_effect p =
        sym (count-sort_by version_of (takes_effect s e k) (snapshots vs))
        ∙ transitions-count s e k (sort_by version_of (snapshots vs)) (unfold known_versions in p)

-- ===== src/Temporal/Resolve.antt =====
-- `resolve` on a chain of versions: it never raises, and its answer is that of a search from the
-- newest version back.
use mathlib.Core.List.{append-nil}
use context_ledger.Base.{
  ℕ, ◌≤◌, ◌<◌, ◌≡◌, refl, ◌∙◌, true, ◌&&◌, Option, none, some, List, [], ◌∷◌, ◌++◌, map, filter,
  count, leb, if◌then◌else◌, Bool-cases, inl, inr, arith,
}
use context_ledger.Base.Sort.{sort_by, count-sort_by, insert_by-last}
use context_ledger.Errors.{ok}
use context_ledger.Facts.{Stamp, aware, ends_after}
use context_ledger.Versions.{FactVersion, VersionSnapshot, to_snapshot}
use context_ledger.Temporal.{is_known, as_known, is_valid_at, only_match, resolve}
use context_ledger.Temporal.Chain.{IsChain, matches, chain-AllClosed, closed-count}

-- The answer read off a chain, newest version first: the newest version that was known at `k` and
-- had begun by `t` decides alone, by the end that was known of it.
unfoldable pub as_of : ℕ → Option ℕ → List FactVersion → Option VersionSnapshot
as_of t k [] = none
as_of t k (v ∷ older) =
    let before = as_of t k older in
    let seen = as_known (to_snapshot v) k in
    if is_known (to_snapshot v) k && leb v.valid_from t
    then (if ends_after t seen.valid_until then some seen else none)
    else before

abbrev pub stamp_opt : Option ℕ → Option Stamp
stamp_opt none = none
stamp_opt (some k) = some (aware k)

abbrev pub snapshots : List FactVersion → List VersionSnapshot
snapshots = map to_snapshot

abbrev pub version_of : VersionSnapshot → ℕ
version_of v = v.version

-- The matches of `resolve` among versions already sorted.
found : ℕ → Option ℕ → List VersionSnapshot → List VersionSnapshot
found t k xs =
    filter (λ v. is_valid_at v t) (map (λ v. as_known v k) (filter (λ v. is_known v k) xs))

found-append :
    (t : ℕ) (k : Option ℕ) (xs ys : List VersionSnapshot)
    → found t k (xs ++ ys) ≡ found t k xs ++ found t k ys
unfolding found
found-append t k [] ys = refl
found-append t k (x ∷ xs) ys = ground (arith, found-append t k xs ys)

found-none :
    (t : ℕ) (k : Option ℕ) (xs : List VersionSnapshot)
    → count (matches t k) xs ≡ 0
    → found t k xs ≡ []
unfolding found matches
found-none t k [] h = refl
found-none t k (x ∷ xs) h = ground (arith, found-none t k xs)

newer-count :
    (n : ℕ) (v : FactVersion) (older : List FactVersion)
    → IsChain (v ∷ older)
    → v.version < n
    → count (λ y. leb n (version_of y)) (snapshots (v ∷ older)) ≡ 0
newer-count n v [] h lt = ground arith
newer-count n v (w ∷ older) h lt = ground (arith, newer-count n w older h.2)

chain-newest :
    (v : FactVersion) (older : List FactVersion)
    → IsChain (v ∷ older)
    → count (λ y. leb v.version (version_of y)) (snapshots older) ≡ 0
chain-newest v [] h = refl
chain-newest v (w ∷ older) h = newer-count v.version w older h.2 (omega arith)

pub sort-chain :
    (v : FactVersion) (older : List FactVersion)
    → IsChain (v ∷ older)
    → sort_by version_of (snapshots (v ∷ older))
      ≡ sort_by version_of (snapshots older) ++ to_snapshot v ∷ []
sort-chain v older h =
    insert_by-last version_of (to_snapshot v) (sort_by version_of (snapshots older)) (
      count-sort_by version_of (λ y. leb v.version (version_of y)) (snapshots older)
      ∙ chain-newest v older h)

-- Once the newest version is known and has begun, no older one is found.
older-none :
    (t : ℕ) (k : Option ℕ) (v : FactVersion) (older : List FactVersion)
    → IsChain (v ∷ older)
    → is_known (to_snapshot v) k && leb v.valid_from t ≡ true
    → found t k (sort_by version_of (snapshots older)) ≡ []
older-none t k v older h begun = found-none t k (sort_by version_of (snapshots older)) (
    count-sort_by version_of (matches t k) (snapshots older)
    ∙ closed-count older v.valid_from v.recorded_at t k (chain-AllClosed v older h) (ground arith)
        (known_by k begun))
  where
    known_by :
        (k : Option ℕ)
        → is_known (to_snapshot v) k && leb v.valid_from t ≡ true
        → (n : ℕ) → k ≡ some n
        → v.recorded_at ≤ n
    known_by none b n e = cc
    known_by (some m) b n e = ground arith

found-one :
    (t : ℕ) (k : Option ℕ) (x : VersionSnapshot)
    → found t k (x ∷ []) ≡ (
        if is_known x k && leb x.valid_from t
        then (if ends_after t (as_known x k).valid_until then as_known x k ∷ [] else [])
        else [])
unfolding found
found-one t none x = ground arith
found-one t (some k) x = ground arith

only_found :
    (t : ℕ) (k : Option ℕ) (vs : List FactVersion)
    → IsChain vs
    → only_match (found t k (sort_by version_of (snapshots vs))) ≡ ok (as_of t k vs)
unfolding only_match as_of
only_found t k [] h = unfold found in refl
only_found t k (v ∷ older) h = rw (sort-chain v older h) (
    rw (found-append t k (sort_by version_of (snapshots older)) (to_snapshot v ∷ [])) (
      rw (found-one t k (to_snapshot v))
        (elim (Bool-cases (is_known (to_snapshot v) k && leb v.valid_from t)) [
          | inl begun ↦ rw (begun, older-none t k v older h begun) (ground arith)
          | inr unseen ↦ rw (unseen, append-nil) (only_found t k older h.2)
        ])))

-- On a chain of versions `resolve` never raises, and answers as the search from the newest back.
pub resolve-eq-as_of :
    (t : ℕ) (k : Option ℕ) (vs : List FactVersion)
    → IsChain vs
    → resolve (snapshots vs) (aware t) (stamp_opt k) ≡ ok (as_of t k vs)
unfolding resolve found
resolve-eq-as_of t none vs h = only_found t none vs h
resolve-eq-as_of t (some k) vs h = only_found t (some k) vs h

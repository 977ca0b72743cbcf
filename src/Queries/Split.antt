-- ===== src/Queries/Split.antt =====
-- The lineage of a version (backend/app/services/temporal.py).
use context_ledger.Base.{
  ℕ, ◌≤◌, ◌≡◌, ◌≢◌, ◌⊎◌, refl, sym, ap, subst, ◌∙◌, Bool, true, some, List, [], ◌∷◌, ◌++◌, map,
  filter, find?, All, ==→≡, ==_refl, leb, ltb, arith, Bool-cases, inl, inr,
}
use context_ledger.Base.Every.{Member, Member-All}
use context_ledger.Base.Sort.{insert_by, sort_by}
use context_ledger.Base.Sorted.{IsSorted, sort_by-IsSorted}
use context_ledger.Base.Distinct.{Distinct, sort_by-Distinct, sorted-Distinct}
use context_ledger.Errors.{ok}
use context_ledger.Roles.{MembershipRole, TenantContext, read_facts}
use context_ledger.Versions.{FactVersion, VersionSnapshot, to_snapshot}
use context_ledger.Db.{Db}
use context_ledger.Authorization.{require_permission}
use context_ledger.EvidenceLinks.{get_version}
use context_ledger.Recording.{of_fact, list_versions, row_version}
use context_ledger.Queries.{Lineage, is_version_id, split_chain, lineage}

module _ {A : Type 0} where
  Member-found :
      (p : A → Bool) (xs : List A) (x : A) → find? p xs ≡ some x → Member x xs × (p x ≡ true)
  Member-found p [] x h = cc
  Member-found p (y ∷ ys) x h = elim (Bool-cases (p y)) [
    | inl yes_y ↦ let e : y ≡ x = ground (arith, h, yes_y) in (inl e, ap p (sym e) ∙ yes_y)
    | inr no_y ↦ let (m, e) = Member-found p ys x (ground (arith, h, no_y)) in (inr m, e)
  ]

  Member-filter :
      (p : A → Bool) (x : A) (xs : List A) → Member x xs → p x ≡ true → Member x (filter p xs)
  Member-filter p x [] m e = m
  Member-filter p x (y ∷ ys) (inl same) e = rw (ap p same ∙ e) (inl same)
  Member-filter p x (y ∷ ys) (inr m) e =
      let rest = Member-filter p x ys m e in
      elim (Bool-cases (p y)) [ inl kept ↦ rw kept (inr rest) | inr dropped ↦ rw dropped rest ]

  module _ (key : A → ℕ) where
    Member-inserted :
        (x y : A) (ys : List A) → (y ≡ x) ⊎ Member x ys → Member x (insert_by key y ys)
    Member-inserted x y [] (inl e) = inl e
    Member-inserted x y [] (inr m) = elim m [ ]
    Member-inserted x y (z ∷ zs) (inl e) =
        let rest = Member-inserted x y zs (inl e) in
        elim (Bool-cases (leb (key y) (key z))) [
          | inl le ↦ rw le (inl e)
          | inr gt ↦ rw gt (inr rest)
        ]
    Member-inserted x y (z ∷ zs) (inr (inl e)) = elim (Bool-cases (leb (key y) (key z))) [
      | inl le ↦ rw le (inr (inl e))
      | inr gt ↦ rw gt (inl e)
    ]
    Member-inserted x y (z ∷ zs) (inr (inr n)) =
        let rest = Member-inserted x y zs (inr n) in
        elim (Bool-cases (leb (key y) (key z))) [
          | inl le ↦ rw le (inr (inr n))
          | inr gt ↦ rw gt (inr rest)
        ]

    Member-sorted : (x : A) (xs : List A) → Member x xs → Member x (sort_by key xs)
    Member-sorted x [] m = m
    Member-sorted x (y ∷ ys) (inl e) = Member-inserted x y (sort_by key ys) (inl e)
    Member-sorted x (y ∷ ys) (inr m) =
        Member-inserted x y (sort_by key ys) (inr (Member-sorted x ys m))

-- The item of a key, and the items below and above it.
found_row :
    (x : FactVersion) (rows : List FactVersion)
    → Distinct (λ (v : FactVersion). v.id) rows
    → Member x rows
    → find? (is_version_id x.id) (map to_snapshot rows) ≡ some (to_snapshot x)
found_row x [] d m = elim m [ ]
found_row x (r ∷ rs) d (inl e) = rw e (rw (==_refl x.id) refl)
found_row x (r ∷ rs) (fresh, d) (inr m) =
    let differ = Member-All (λ (v : FactVersion). v.id ≢ r.id) x rs m fresh in
    ground (arith, differ, ==→≡ r.id x.id, found_row x rs d m)

abbrev below : ℕ → List FactVersion → List VersionSnapshot
below n rows = filter (λ (v : VersionSnapshot). ltb v.version n) (map to_snapshot rows)

abbrev above : ℕ → List FactVersion → List VersionSnapshot
above n rows = filter (λ (v : VersionSnapshot). ltb n v.version) (map to_snapshot rows)

none_below :
    (n : ℕ) (rows : List FactVersion)
    → All (λ (v : FactVersion). n ≤ row_version v) rows
    → below n rows ≡ []
none_below n [] all = refl
none_below n (r ∷ rs) (le, all) = ground (arith, none_below n rs all)

all_above :
    (n : ℕ) (rows : List FactVersion)
    → All (λ (v : FactVersion). n ≤ row_version v) rows
    → All (λ (v : FactVersion). row_version v ≢ n) rows
    → above n rows ≡ map to_snapshot rows
all_above n [] all differ = refl
all_above n (r ∷ rs) (le, all) (new, differ) = ground (arith, all_above n rs all differ)

split_first :
    (r : FactVersion) (rs : List FactVersion)
    → All (λ (v : FactVersion). r.version ≤ row_version v) rs
    → All (λ (v : FactVersion). row_version v ≢ r.version) rs
    → below r.version (r ∷ rs) ++ (to_snapshot r ∷ above r.version (r ∷ rs))
      ≡ map to_snapshot (r ∷ rs)
split_first r rs least fresh =
    ground (arith, none_below r.version rs least, all_above r.version rs least fresh)

split_rows :
    (x : FactVersion) (rows : List FactVersion)
    → IsSorted row_version rows
    → Distinct row_version rows
    → Member x rows
    → below x.version rows ++ (to_snapshot x ∷ above x.version rows) ≡ map to_snapshot rows
split_rows x [] s d m = elim m [ ]
split_rows x (r ∷ rs) (least, s) (fresh, d) (inl e) =
    subst
      (λ (y : FactVersion).
        below y.version (r ∷ rs) ++ (to_snapshot y ∷ above y.version (r ∷ rs))
        ≡ map to_snapshot (r ∷ rs))
      e (split_first r rs least fresh)
split_rows x (r ∷ rs) (least, s) (fresh, d) (inr m) =
    let le = Member-All (λ (v : FactVersion). r.version ≤ row_version v) x rs m least in
    let differ = Member-All (λ (v : FactVersion). row_version v ≢ r.version) x rs m fresh in
    ground (arith, le, differ, split_rows x rs s d m)

IsSorted-versions : (o f : ℕ) (vs : List FactVersion) → IsSorted row_version (list_versions o f vs)
unfolding list_versions
IsSorted-versions o f vs = sort_by-IsSorted row_version (of_fact o f vs)

Distinct-numbers :
    (o f : ℕ) (vs : List FactVersion)
    → Distinct row_version (of_fact o f vs)
    → Distinct row_version (list_versions o f vs)
unfolding list_versions
Distinct-numbers o f vs d = sort_by-Distinct row_version (of_fact o f vs) d

Distinct-ids :
    (o f : ℕ) (vs : List FactVersion)
    → Distinct (λ (x : FactVersion). x.id) (of_fact o f vs)
    → Distinct (λ (x : FactVersion). x.id) (list_versions o f vs)
unfolding list_versions
Distinct-ids o f vs d = sorted-Distinct (λ (x : FactVersion). x.id) row_version (of_fact o f vs) d

module _ (db : Db) (o version_id : ℕ) (v : FactVersion) where
  Member-of :
      get_version db o version_id ≡ some v
      → Member v (list_versions o v.fact_id db.versions) × (v.id ≡ version_id)
  unfolding get_version list_versions of_fact
  Member-of found =
      let (m, here) = Member-found _ db.versions v found in
      (
        Member-sorted row_version v _
            (Member-filter _ v db.versions m (ground (arith, here, ==_refl v.fact_id))),
        ground (arith, here, ==→≡ v.id version_id),
      )

-- If the versions of the fact of a version have different ids and different numbers, then the lineage
-- of the version, asked by a caller who may read facts, is answered: it has the version itself, and
-- its ancestors, the version and its descendants, in this order, are exactly all versions of the
-- fact as `list_versions` orders them.
pub lineage-split :
    (db : Db) (ctx : TenantContext) (version_id : ℕ) (v : FactVersion) (role : MembershipRole)
    → require_permission db ctx read_facts ≡ ok role
    → get_version db ctx.organization_id version_id ≡ some v
    → Distinct (λ (x : FactVersion). x.id) (of_fact ctx.organization_id v.fact_id db.versions)
    → Distinct row_version (of_fact ctx.organization_id v.fact_id db.versions)
    → (l : Lineage) × (lineage db ctx version_id ≡ ok l)
      × (l.version ≡ to_snapshot v)
      × (l.ancestors ++ (l.version ∷ l.descendants)
          ≡ map to_snapshot (list_versions ctx.organization_id v.fact_id db.versions))
unfolding lineage split_chain
lineage-split db ctx version_id v role allowed found ids numbers =
    let o = ctx.organization_id in
    let rows = list_versions o v.fact_id db.versions in
    let (m, same) = Member-of db ctx.organization_id version_id v found in
    let current =
      ap (λ i. find? (is_version_id i) (map to_snapshot rows)) (sym same)
      ∙ found_row v rows (Distinct-ids o v.fact_id db.versions ids) m in
    (
      record {
        version = to_snapshot v;
        ancestors = below v.version rows;
        descendants = above v.version rows;
      },
      rw allowed (rw found (rw current refl)),
      refl,
      split_rows v rows (IsSorted-versions o v.fact_id db.versions)
          (Distinct-numbers o v.fact_id db.versions numbers) m,
    )

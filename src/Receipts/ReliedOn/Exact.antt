-- ===== src/Receipts/ReliedOn/Exact.antt =====
-- What `validate_relied_on` accepts (backend/app/domain/decisions.py).
use context_ledger.Base.{
  ◌⊎◌, ℕ, ◌≡◌, ◌≢◌, ◌≤◌, refl, true, false, not, ◌||◌, List, [], ◌∷◌, length, contains, any, All,
  ◌==◌, ==_refl, ltb, arith, Bool-cases, inl, inr,
}
use context_ledger.Base.Sort.{insert_by, sort_by}
use context_ledger.Base.Sorted.{IsSorted, sort_by-IsSorted}
use context_ledger.Base.Distinct.{Distinct, sort_by-Distinct}
use context_ledger.Errors.{ok, err, validation_failed}
use context_ledger.Receipts.ReliedOn.{validate_relied_on, has_duplicate, max_relied_on, itself}

contains-insert_by :
    (i x : ℕ) (ids : List ℕ) → contains i (insert_by itself x ids) ≡ (i == x || contains i ids)
contains-insert_by i x [] = refl
contains-insert_by i x (y ∷ ys) = ground (arith, contains-insert_by i x ys)

pub contains-sorted : (i : ℕ) (ids : List ℕ) → contains i (sort_by itself ids) ≡ contains i ids
contains-sorted i [] = refl
contains-sorted i (x ∷ xs) =
    ground (arith, contains-insert_by i x (sort_by itself xs), contains-sorted i xs)

-- The ids are distinct, at most fifty, and all in the snapshot.
pub record IsCitation (ids snapshot_facts : List ℕ) : Type 0 where
  pub distinct : Distinct itself ids
  pub short : length ids ≤ 50
  pub known : All (λ i. contains i snapshot_facts ≡ true) ids

absent : (i : ℕ) (ids : List ℕ) → contains i ids ≡ false → All (λ j. j ≢ i) ids
absent i [] h = tt
absent i (j ∷ js) h = (ground (arith, h, ==_refl i), absent i js (ground (arith, h)))

present : (i : ℕ) (ids : List ℕ) → All (λ j. j ≢ i) ids → contains i ids ≡ false
present i [] h = refl
present i (j ∷ js) (differ, rest) = ground (arith, differ, present i js rest)

Distinct-ids : (ids : List ℕ) → has_duplicate ids ≡ false → Distinct itself ids
Distinct-ids [] h = tt
Distinct-ids (i ∷ is) h = (absent i is (ground (arith, h)), Distinct-ids is (ground (arith, h)))

no_duplicate : (ids : List ℕ) → Distinct itself ids → has_duplicate ids ≡ false
no_duplicate [] d = refl
no_duplicate (i ∷ is) (fresh, d) = ground (arith, present i is fresh, no_duplicate is d)

all_known :
    (ids snapshot_facts : List ℕ)
    → any (λ i. not (contains i snapshot_facts)) ids ≡ false
    → All (λ i. contains i snapshot_facts ≡ true) ids
all_known [] snapshot_facts h = tt
all_known (i ∷ is) snapshot_facts h =
    (ground (arith, h), all_known is snapshot_facts (ground (arith, h)))

none_missing :
    (ids snapshot_facts : List ℕ)
    → All (λ i. contains i snapshot_facts ≡ true) ids
    → any (λ i. not (contains i snapshot_facts)) ids ≡ false
none_missing [] snapshot_facts all = refl
none_missing (i ∷ is) snapshot_facts (known, all) =
    ground (arith, known, none_missing is snapshot_facts all)

-- Ids are accepted exactly when they are distinct, at most fifty and all among the snapshot's; what
-- is returned is then in increasing order, distinct, and has the same ids. Otherwise the call raises
-- a validation error.
pub validate_relied_on_exact :
    (ids snapshot_facts : List ℕ)
    → (IsCitation ids snapshot_facts
        × ((valid : List ℕ) × (validate_relied_on ids snapshot_facts ≡ ok valid)
            × IsSorted itself valid
            × Distinct itself valid
            × ((i : ℕ) → contains i valid ≡ contains i ids)))
      ⊎ ((¬ IsCitation ids snapshot_facts)
          × (validate_relied_on ids snapshot_facts ≡ err validation_failed))
unfolding validate_relied_on
validate_relied_on_exact ids snapshot_facts = elim (Bool-cases (has_duplicate ids)) [
  | inl twice ↦ inr ((λ c. let d = no_duplicate ids c.distinct in cc), rw twice refl)
  | inr once ↦ elim (Bool-cases (ltb max_relied_on (length ids))) [
    | inl long ↦
        inr ((λ c. let d = c.short in absurd (ground (arith, long))), rw once (rw long refl))
    | inr short ↦ elim (Bool-cases (any (λ i. not (contains i snapshot_facts)) ids)) [
      | inl missing ↦ inr (
        (λ c. let d = none_missing ids snapshot_facts c.known in cc),
        rw once (rw short (rw missing refl)),
      )
      | inr known ↦ inl (
        record {
          distinct = Distinct-ids ids once;
          short = ground (arith, short);
          known = all_known ids snapshot_facts known;
        },
        (
          sort_by itself ids,
          rw once (rw short (rw known refl)),
          sort_by-IsSorted itself ids,
          sort_by-Distinct itself ids (Distinct-ids ids once),
          λ i. contains-sorted i ids,
        ),
      )
    ]
  ]
]

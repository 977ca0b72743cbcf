-- ===== src/Base/Sorted.antt =====
-- Lists in the order of a numeric key, and what sorting does to them.
use context_ledger.Base.{ℕ, ◌≤◌, ◌≡◌, refl, Bool, List, [], ◌∷◌, filter, All, if◌then◌else◌, arith}
use context_ledger.Base.Sort.{insert_by, sort_by}

module _ {ℓ} {A : Type ℓ} (key : A → ℕ) where
  abbrev pub IsSorted : List A → Type 0
  IsSorted [] = Unit
  IsSorted (x ∷ xs) = All (λ y. key x ≤ key y) xs × IsSorted xs

  All-le : (m n : ℕ) (xs : List A) → m ≤ n → All (λ y. n ≤ key y) xs → All (λ y. m ≤ key y) xs
  All-le m n [] h a = tt
  All-le m n (x ∷ xs) h (b, a) = (omega arith, All-le m n xs h a)

  All-insert :
      (n : ℕ) (x : A) (ys : List A)
      → n ≤ key x
      → All (λ y. n ≤ key y) ys
      → All (λ y. n ≤ key y) (insert_by key x ys)
  All-insert n x [] h a = (h, tt)
  All-insert n x (y ∷ ys) h a = ground (arith, All-insert n x ys h)

  insert-IsSorted : (x : A) (ys : List A) → IsSorted ys → IsSorted (insert_by key x ys)
  insert-IsSorted x [] s = (tt, tt)
  insert-IsSorted x (y ∷ ys) s =
      ground (arith, All-le (key x) (key y) ys, All-insert (key y) x ys, insert-IsSorted x ys)

  pub sort_by-IsSorted : (xs : List A) → IsSorted (sort_by key xs)
  sort_by-IsSorted [] = tt
  sort_by-IsSorted (x ∷ xs) = insert-IsSorted x (sort_by key xs) (sort_by-IsSorted xs)

  All-filter :
      (n : ℕ) (p : A → Bool) (xs : List A)
      → All (λ y. n ≤ key y) xs
      → All (λ y. n ≤ key y) (filter p xs)
  All-filter n p [] a = tt
  All-filter n p (x ∷ xs) a = ground (arith, All-filter n p xs)

  pub filter-IsSorted : (p : A → Bool) (xs : List A) → IsSorted xs → IsSorted (filter p xs)
  filter-IsSorted p [] s = tt
  filter-IsSorted p (x ∷ xs) s = ground (arith, All-filter (key x) p xs, filter-IsSorted p xs)

  insert-first : (x : A) (ys : List A) → All (λ y. key x ≤ key y) ys → insert_by key x ys ≡ x ∷ ys
  insert-first x [] a = refl
  insert-first x (y ∷ ys) a = ground arith

  -- Sorting leaves a sorted list alone.
  pub sort_by-sorted : (xs : List A) → IsSorted xs → sort_by key xs ≡ xs
  sort_by-sorted [] s = refl
  sort_by-sorted (x ∷ xs) s = ground (arith, sort_by-sorted xs, insert-first x xs)

module _ {A : Type 0} (key : A → ℕ) where
  insert-filter :
      (p : A → Bool) (x : A) (ys : List A)
      → IsSorted key ys
      → filter p (insert_by key x ys) ≡ (if p x then insert_by key x (filter p ys) else filter p ys)
  insert-filter p x [] s = refl
  insert-filter p x (y ∷ ys) s = ground (
    arith,
    insert-filter p x ys,
    All-filter key (key x) p ys,
    All-le key (key x) (key y) ys,
    insert-first key x (y ∷ filter p ys),
    insert-first key x (filter p ys),
  )

  -- Sorting and filtering may be done in either order.
  pub sort_by-filter :
      (p : A → Bool) (xs : List A) → sort_by key (filter p xs) ≡ filter p (sort_by key xs)
  sort_by-filter p [] = refl
  sort_by-filter p (x ∷ xs) =
      ground
        (arith, sort_by-filter p xs, insert-filter p x (sort_by key xs) (sort_by-IsSorted key xs))

-- ===== src/Base/Sort.antt =====
-- `sorted(xs, key=…)`: a stable insertion sort by a numeric key, and `ORDER BY key DESC LIMIT 1`.
use Prim.Native.Nat.{ℕ, ◌≤◌}
use mathlib.Core.Path.{◌≡◌, refl}
use mathlib.Core.Bool.{Bool}
use mathlib.Core.Option.{Option, none, some}
use mathlib.Core.List.{List, [], ◌∷◌, ◌++◌}
use native.Mathlib.Omega.{arith}
use context_ledger.Base.Tests.{leb, if◌then◌else◌}
use context_ledger.Base.Lists.{count}

module _ {ℓ} {A : Type ℓ} (key : A → ℕ) where
  abbrev pub insert_by : A → List A → List A
  insert_by x [] = x ∷ []
  insert_by x (y ∷ ys) =
      let rest = insert_by x ys in if leb (key x) (key y) then x ∷ y ∷ ys else y ∷ rest

  abbrev pub sort_by : List A → List A
  sort_by [] = []
  sort_by (x ∷ xs) = insert_by x (sort_by xs)

  -- The first item with the greatest key.
  abbrev pub max_by : List A → Option A
  max_by [] = none
  max_by (x ∷ xs) = elim (max_by xs) [
    | none ↦ some x
    | some y ↦ if leb (key y) (key x) then some x else some y
  ]

  count-insert_by :
      (p : A → Bool) (x : A) (ys : List A) → count p (insert_by x ys) ≡ count p (x ∷ ys)
  count-insert_by p x [] = refl
  count-insert_by p x (y ∷ ys) = ground (arith, count-insert_by p x ys)

  pub count-sort_by : (p : A → Bool) (xs : List A) → count p (sort_by xs) ≡ count p xs
  count-sort_by p [] = refl
  count-sort_by p (x ∷ xs) = ground (arith, count-insert_by p x (sort_by xs), count-sort_by p xs)

  -- An item that no other key passes stays in front.
  pub max_by-head :
      (x : A) (xs : List A)
      → ((y : A) → max_by xs ≡ some y → key y ≤ key x)
      → max_by (x ∷ xs) ≡ some x
  max_by-head x xs h = go (max_by xs) refl
    where
      go : (m : Option A) → max_by xs ≡ m → max_by (x ∷ xs) ≡ some x
      go none e = ground arith
      go (some y) e = ground (arith, h y e)

  -- An item whose key passes all others goes to the end.
  pub insert_by-last :
      (x : A) (ys : List A)
      → count (λ y. leb (key x) (key y)) ys ≡ 0
      → insert_by x ys ≡ ys ++ x ∷ []
  insert_by-last x [] h = refl
  insert_by-last x (y ∷ ys) h = ground (arith, insert_by-last x ys)

-- ===== src/Base/Every.antt =====
-- What holds of every item of a list, through the list functions, and membership.
use context_ledger.Base.{
  ℕ, zero, suc, ◌≡◌, ◌≢◌, ◌⊎◌, inl, inr, refl, Bool, true, false, List, [], ◌∷◌, ◌++◌, map, filter,
  take, contains, All, leb, subst, arith, Bool-cases,
}
use context_ledger.Base.Sort.{insert_by, sort_by}

module _ {A : Type 0} where
  -- The item stands in the list.
  abbrev pub Member : A → List A → Type 0
  Member a [] = ⊥
  Member a (x ∷ xs) = (x ≡ a) ⊎ Member a xs

module _ {ℓ} {A : Type ℓ} (P : A → Type 0) where
  pub All-insert_by :
      (key : A → ℕ) (x : A) (xs : List A) → P x → All P xs → All P (insert_by key x xs)
  All-insert_by key x [] p all = (p, tt)
  All-insert_by key x (y ∷ ys) p (q, all) =
      let rest = All-insert_by key x ys p all in
      elim (Bool-cases (leb (key x) (key y))) [
        | inl le ↦ rw le (p, (q, all))
        | inr gt ↦ rw gt (q, rest)
      ]

  pub All-sort_by : (key : A → ℕ) (xs : List A) → All P xs → All P (sort_by key xs)
  All-sort_by key [] all = tt
  All-sort_by key (x ∷ xs) (p, all) =
      All-insert_by key x (sort_by key xs) p (All-sort_by key xs all)

  pub All-take : (n : ℕ) (xs : List A) → All P xs → All P (take n xs)
  All-take zero xs all = tt
  All-take (suc n) [] all = tt
  All-take (suc n) (x ∷ xs) (p, all) = (p, All-take n xs all)

  pub All-append : (xs ys : List A) → All P xs → All P ys → All P (xs ++ ys)
  All-append [] ys all_xs all_ys = all_ys
  All-append (x ∷ xs) ys (p, all_xs) all_ys = (p, All-append xs ys all_xs all_ys)

  -- What a filter keeps.
  pub All-filter :
      (Q : A → Type 0) (test : A → Bool) (xs : List A)
      → ((x : A) → Q x → test x ≡ true → P x)
      → All Q xs
      → All P (filter test xs)
  All-filter Q test [] keep all = tt
  All-filter Q test (x ∷ xs) keep (q, all) =
      let rest = All-filter Q test xs keep all in
      elim (Bool-cases (test x)) [
        | inl kept ↦ rw kept (keep x q kept, rest)
        | inr dropped ↦ rw dropped rest
      ]

  pub All-mono : (Q : A → Type 0) (xs : List A) → ((x : A) → Q x → P x) → All Q xs → All P xs
  All-mono Q [] keep all = tt
  All-mono Q (x ∷ xs) keep (q, all) = (keep x q, All-mono Q xs keep all)

  pub All-every : (xs : List A) → ((x : A) → P x) → All P xs
  All-every [] h = tt
  All-every (x ∷ xs) h = (h x, All-every xs h)

module _ {A : Type 0} (P : A → Type 0) where
  pub Member-All : (a : A) (xs : List A) → Member a xs → All P xs → P a
  Member-All a [] m all = elim m [ ]
  Member-All a (x ∷ xs) (inl e) (p, all) = subst P e p
  Member-All a (x ∷ xs) (inr m) (p, all) = Member-All a xs m all

module _ {ℓ κ} {A : Type ℓ} {B : Type κ} where
  pub All-map :
      (P : B → Type 0) (Q : A → Type 0) (f : A → B) (xs : List A)
      → ((x : A) → Q x → P (f x))
      → All Q xs
      → All P (map f xs)
  All-map P Q f [] keep all = tt
  All-map P Q f (x ∷ xs) keep (q, all) = (keep x q, All-map P Q f xs keep all)

-- Identifiers that a list lacks.
pub contains-map {ℓ} :
    {A : Type ℓ} (f : A → ℕ) (i : ℕ) (xs : List A)
    → All (λ x. f x ≢ i) xs
    → contains i (map f xs) ≡ false
contains-map f i [] all = refl
contains-map f i (x ∷ xs) (differ, all) = ground (arith, contains-map f i xs all)

-- ===== src/Base/Distinct.antt =====
-- Lists in which no two items have the same key, and what sorting and filtering do to them.
use context_ledger.Base.{
  ℕ, zero, suc, ◌≡◌, ◌≢◌, inl, inr, refl, sym, ap, ◌∙◌, Bool, not, List, [], ◌∷◌, map, filter, take,
  drop, contains, All, ==_refl, leb, Bool-cases, arith,
}
use context_ledger.Base.Every.{Member, All-insert_by, All-sort_by, All-filter, Member-All}
use context_ledger.Base.Sort.{insert_by, sort_by}

module _ {A : Type 0} (key : A → ℕ) where
  abbrev pub Distinct : List A → Type 0
  Distinct [] = Unit {0}
  Distinct (x ∷ xs) = All (λ y. key y ≢ key x) xs × Distinct xs

  pub filter-Distinct : (p : A → Bool) (xs : List A) → Distinct xs → Distinct (filter p xs)
  filter-Distinct p [] d = tt
  filter-Distinct p (x ∷ xs) (fresh, d) =
      let rest = filter-Distinct p xs d in
      let new = All-filter (λ y. key y ≢ key x) (λ y. key y ≢ key x) p xs (λ y h kept. h) fresh in
      elim (Bool-cases (p x)) [ inl kept ↦ rw kept (new, rest) | inr dropped ↦ rw dropped rest ]

  -- Two items of one key are one item.
  pub Distinct-same :
      (a b : A) (xs : List A) → Distinct xs → Member a xs → Member b xs → key a ≡ key b → a ≡ b
  Distinct-same a b [] d ma mb e = elim ma [ ]
  Distinct-same a b (x ∷ xs) d (inl ea) (inl eb) e = sym ea ∙ eb
  Distinct-same a b (x ∷ xs) (fresh, d) (inl ea) (inr mb) e =
      absurd (Member-All (λ y. key y ≢ key x) b xs mb fresh (sym e ∙ ap key (sym ea)))
  Distinct-same a b (x ∷ xs) (fresh, d) (inr ma) (inl eb) e =
      absurd (Member-All (λ y. key y ≢ key x) a xs ma fresh (e ∙ ap key (sym eb)))
  Distinct-same a b (x ∷ xs) (fresh, d) (inr ma) (inr mb) e = Distinct-same a b xs d ma mb e

  -- The items whose keys are not given.
  abbrev pub without : List ℕ → List A → List A
  without ids xs = filter (λ y. not (contains (key y) ids)) xs

  without-none : (xs : List A) → without [] xs ≡ xs
  without-none [] = refl
  without-none (x ∷ xs) = ap (λ ys. x ∷ ys) (without-none xs)

  without-absent :
      (a : ℕ) (ids : List ℕ) (xs : List A)
      → All (λ y. key y ≢ a) xs
      → without (a ∷ ids) xs ≡ without ids xs
  without-absent a ids [] fresh = refl
  without-absent a ids (x ∷ xs) (differ, fresh) =
      ground (arith, differ, without-absent a ids xs fresh)

  pub without-take :
      (n : ℕ) (xs : List A) → Distinct xs → without (map key (take n xs)) xs ≡ drop n xs
  without-take zero xs d = without-none xs
  without-take (suc n) [] d = refl
  without-take (suc n) (x ∷ xs) (fresh, d) =
      rw (==_refl (key x))
        (without-absent (key x) (map key (take n xs)) xs fresh ∙ without-take n xs d)

-- Sorting by another key keeps the items distinct.
module _ {A : Type 0} (key order : A → ℕ) where
  insert_other :
      (x : A) (xs : List A)
      → All (λ y. key y ≢ key x) xs
      → Distinct key xs
      → Distinct key (insert_by order x xs)
  insert_other x [] fresh d = (tt, tt)
  insert_other x (y ∷ ys) (differ, fresh) (new, d) =
      let rest = insert_other x ys fresh d in
      let others = All-insert_by (λ z. key z ≢ key y) order x ys (λ e. differ (sym e)) new in
      elim (Bool-cases (leb (order x) (order y))) [
        | inl le ↦ rw le ((differ, fresh), (new, d))
        | inr gt ↦ rw gt (others, rest)
      ]

  pub sorted-Distinct : (xs : List A) → Distinct key xs → Distinct key (sort_by order xs)
  sorted-Distinct [] d = tt
  sorted-Distinct (x ∷ xs) (fresh, d) =
      insert_other x (sort_by order xs) (All-sort_by (λ y. key y ≢ key x) order xs fresh)
        (sorted-Distinct xs d)

module _ {A : Type 0} (key : A → ℕ) where
  pub sort_by-Distinct : (xs : List A) → Distinct key xs → Distinct key (sort_by key xs)
  sort_by-Distinct xs d = sorted-Distinct key key xs d

-- ===== src/Recording/Steps.antt =====
-- The table of versions under the write of one version.
use context_ledger.Base.{
  ℕ, ◌<◌, ◌≡◌, ◌≢◌, refl, ◌∙◌, Bool, true, false, Option, some, List, [], ◌∷◌, find?, filter, ◌==◌,
  if◌then◌else◌, ◌⊎◌, All, arith,
}
use context_ledger.Base.Sort.{max_by, max_by-head}
use context_ledger.Versions.{FactVersion}
use context_ledger.Temporal.Chain.{IsChain}
use context_ledger.Recording.{of_fact, row_version, latest_version, close_row, close_version}

-- No two rows share an id.
abbrev pub UniqueIds : List FactVersion → Type 0
UniqueIds [] = Unit
UniqueIds (v ∷ vs) = All (λ (w : FactVersion). w.id ≢ v.id) vs × UniqueIds vs

pub of_fact-close :
    (o f p i u r : ℕ) (vs : List FactVersion)
    → of_fact o f (close_version p i u r vs) ≡ close_version p i u r (of_fact o f vs)
unfolding of_fact close_version close_row
of_fact-close o f p i u r [] = refl
of_fact-close o f p i u r (v ∷ vs) = ground (arith, of_fact-close o f p i u r vs)

pub All-close :
    (j p i u r : ℕ) (vs : List FactVersion)
    → All (λ (w : FactVersion). w.id ≢ j) vs
    → All (λ (w : FactVersion). w.id ≢ j) (close_version p i u r vs)
unfolding close_version close_row
All-close j p i u r [] a = tt
All-close j p i u r (v ∷ vs) a = ground (arith, All-close j p i u r vs)

close_row-id : (p i u r : ℕ) (v : FactVersion) → (close_row p i u r v).id ≡ v.id
unfolding close_row
close_row-id p i u r v = ground arith

pub close-UniqueIds :
    (p i u r : ℕ) (vs : List FactVersion) → UniqueIds vs → UniqueIds (close_version p i u r vs)
unfolding close_version
close-UniqueIds p i u r [] h = tt
close-UniqueIds p i u r (v ∷ vs) h =
    (rw (close_row-id p i u r v) (All-close v.id p i u r vs h.0), close-UniqueIds p i u r vs h.1)

older-lt :
    (v : FactVersion) (older : List FactVersion)
    → IsChain (v ∷ older)
    → (y : FactVersion) → max_by row_version older ≡ some y
    → y.version < v.version
older-lt v [] h y e = cc
older-lt v (w ∷ older) h y e =
    let newest =
      max_by-head row_version w older (λ z ez. omega (arith, older-lt w older h.2 z ez)) in
    ground (arith, newest)

-- The latest version is the newest of the chain.
pub latest-chain :
    (o f : ℕ) (v : FactVersion) (older vs : List FactVersion)
    → of_fact o f vs ≡ v ∷ older
    → IsChain (v ∷ older)
    → latest_version o f vs ≡ some v
unfolding latest_version
latest-chain o f v older vs e h =
    rw e (max_by-head row_version v older (λ y ey. omega (arith, older-lt v older h y ey)))

-- Closing touches no version that has an end already.
pub close-older :
    (v : FactVersion) (older : List FactVersion) (p i u r : ℕ)
    → IsChain (v ∷ older)
    → close_version p i u r older ≡ older
unfolding close_version close_row
close-older v [] p i u r h = refl
close-older v (w ∷ older) p i u r h = ground (arith, close-older w older p i u r h.2)

All-filter {κ} :
    (P : FactVersion → Type κ) (p : FactVersion → Bool) (xs : List FactVersion)
    → All P xs
    → All P (filter p xs)
All-filter P p [] a = tt
All-filter P p (x ∷ xs) (b, a) =
    elim (p x) as (λ t. All P (if t then x ∷ filter p xs else filter p xs)) [
      | true ↦ (b, All-filter P p xs a)
      | false ↦ All-filter P p xs a
    ]

-- Every row of a fact's versions is of that fact.
pub All-of_fact :
    (o f : ℕ) (vs : List FactVersion)
    → All (λ (x : FactVersion). (x.organization_id ≡ o) × (x.fact_id ≡ f)) (of_fact o f vs)
unfolding of_fact
All-of_fact o f [] = tt
All-of_fact o f (v ∷ vs) = ground (arith, All-of_fact o f vs)

-- The row with an id.
row_of : ℕ → List FactVersion → Option FactVersion
row_of i = find? (λ (y : FactVersion). y.id == i)

All-row_of-cons :
    (v : FactVersion) (vs xs : List FactVersion)
    → All (λ (x : FactVersion). x.id ≢ v.id) xs
    → All (λ (x : FactVersion). row_of x.id vs ≡ some x) xs
    → All (λ (x : FactVersion). row_of x.id (v ∷ vs) ≡ some x) xs
unfolding row_of
All-row_of-cons v vs [] n a = tt
All-row_of-cons v vs (x ∷ xs) n a = (ground (arith, a.0), All-row_of-cons v vs xs n.1 a.1)

All-row_of :
    (vs : List FactVersion) → UniqueIds vs → All (λ (x : FactVersion). row_of x.id vs ≡ some x) vs
All-row_of [] h = tt
All-row_of (v ∷ vs) h =
    (unfold row_of in ground arith, All-row_of-cons v vs vs h.0 (All-row_of vs h.1))

differ :
    (vs : List FactVersion) (w x : FactVersion) (o f o' f' : ℕ)
    → row_of w.id vs ≡ some w
    → row_of x.id vs ≡ some x
    → (w.organization_id ≡ o) × (w.fact_id ≡ f)
    → (x.organization_id ≡ o') × (x.fact_id ≡ f')
    → (o' ≢ o) ⊎ (f' ≢ f)
    → x.id ≢ w.id
differ vs w x o f o' f' rw_w rw_x at_w at_x ne e = ground arith

untouched :
    (p u r : ℕ) (vs : List FactVersion) (w : FactVersion) (o f o' f' : ℕ) (xs : List FactVersion)
    → row_of w.id vs ≡ some w
    → (w.organization_id ≡ o) × (w.fact_id ≡ f)
    → (o' ≢ o) ⊎ (f' ≢ f)
    → All (λ (x : FactVersion). row_of x.id vs ≡ some x) xs
    → All (λ (x : FactVersion). (x.organization_id ≡ o') × (x.fact_id ≡ f')) xs
    → close_version p w.id u r xs ≡ xs
unfolding close_version close_row
untouched p u r vs w o f o' f' [] a at ne rows ats = refl
untouched p u r vs w o f o' f' (x ∷ xs) a at ne rows ats = ground (
  arith,
  differ vs w x o f o' f' a rows.0 at ats.0 ne,
  untouched p u r vs w o f o' f' xs a at ne rows.1 ats.1,
)

row_of-of_fact :
    (o f : ℕ) (vs : List FactVersion)
    → UniqueIds vs
    → All (λ (x : FactVersion). row_of x.id vs ≡ some x) (of_fact o f vs)
unfolding of_fact
row_of-of_fact o f vs unique = All-filter (λ x. row_of x.id vs ≡ some x) _ vs (All-row_of vs unique)

-- Closing the latest version of one fact leaves the versions of every other fact alone.
pub close-other :
    (o f o' f' u r : ℕ) (w : FactVersion) (older vs : List FactVersion)
    → UniqueIds vs
    → of_fact o f vs ≡ w ∷ older
    → (o' ≢ o) ⊎ (f' ≢ f)
    → of_fact o' f' (close_version o w.id u r vs) ≡ of_fact o' f' vs
close-other o f o' f' u r w older vs unique e ne =
    let here : All (λ (x : FactVersion). row_of x.id vs ≡ some x) (w ∷ older) =
      rw e at (row_of-of_fact o f vs unique) in
    let place : All (λ (x : FactVersion). (x.organization_id ≡ o) × (x.fact_id ≡ f)) (w ∷ older) =
      rw e at (All-of_fact o f vs) in
    of_fact-close o' f' o w.id u r vs
    ∙ untouched o u r vs w o f o' f' (of_fact o' f' vs) here.0 place.0 ne
        (row_of-of_fact o' f' vs unique) (All-of_fact o' f' vs)

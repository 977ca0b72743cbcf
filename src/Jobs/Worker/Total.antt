-- ===== src/Jobs/Worker/Total.antt =====
-- Every text that a batch needs is embedded (backend/app/workers/embeddings.py): the lookup in the
-- dictionary of fresh vectors does not fail.
use context_ledger.Base.{
  ℕ, zero, suc, ◌≤◌, ◌≡◌, ◌≢◌, ◌⊎◌, refl, sym, subst, ◌∙◌, Bool, true, false, not, ◌||◌, some, List,
  [], ◌∷◌, ◌++◌, map, filter, any, length, take, drop, take-append-drop, contains, ==→≡, ==_refl,
  ap, arith, Option-cases, inl, inr,
}
use context_ledger.Base.Every.{Member}
use context_ledger.EvidenceLinks.{unique_from, is_none}
use context_ledger.Jobs.{Jobs, ClaimedJob}
use context_ledger.Jobs.Worker.{
  Worker, Reply, done, refused, broken, Provider, chunks, zip_strict, joined, embed_all,
  fresh_vector, cached,
}

-- A text for which there is a vector.
abbrev pub has_vector : ℕ → List (ℕ × ℕ) → Bool
has_vector d fresh = not (is_none (fresh_vector d fresh))

has_vector-append :
    (d : ℕ) (xs ys : List (ℕ × ℕ)) → has_vector d (xs ++ ys) ≡ (has_vector d xs || has_vector d ys)
unfolding fresh_vector
has_vector-append d [] ys = refl
has_vector-append d ((e, v) ∷ xs) ys = ground (arith, has_vector-append d xs ys)

pub Reply-cases :
    {A : Type 0} (r : Reply A) → ((a : A) × (r ≡ done a)) ⊎ (r ≡ refused) ⊎ (r ≡ broken)
Reply-cases (done a) = inl (a, refl)
Reply-cases refused = inr (inl refl)
Reply-cases broken = inr (inr refl)

has_vector-zip :
    (d : ℕ) (chunk vectors : List ℕ) (pairs : List (ℕ × ℕ))
    → zip_strict chunk vectors ≡ some pairs
    → has_vector d pairs ≡ contains d chunk
unfolding zip_strict fresh_vector
has_vector-zip d [] [] pairs h = ground arith
has_vector-zip d [] (v ∷ vs) pairs h = absurd (ground arith)
has_vector-zip d (e ∷ chunk) [] pairs h = absurd (ground arith)
has_vector-zip d (e ∷ chunk) (v ∷ vs) pairs h = elim (Option-cases (zip_strict chunk vs)) [
  | inl none_left ↦ absurd (ground arith)
  | inr (rest, found) ↦ ground (arith, has_vector-zip d chunk vs rest found)
]

zip_strict-total :
    (chunk vectors : List ℕ)
    → length vectors ≡ length chunk
    → (pairs : List (ℕ × ℕ)) × (zip_strict chunk vectors ≡ some pairs)
unfolding zip_strict
zip_strict-total [] [] same = ([], refl)
zip_strict-total [] (v ∷ vs) same = absurd (omega arith)
zip_strict-total (d ∷ ds) [] same = absurd (omega arith)
zip_strict-total (d ∷ ds) (v ∷ vs) same =
    let (pairs, found) = zip_strict-total ds vs (omega arith) in ((d, v) ∷ pairs, rw found refl)

-- A provider that answers a list of texts with as many vectors, or raises `EmbeddingProviderError`.
abbrev pub IsReply : List ℕ → Reply (List ℕ × ℕ) → Type 0
IsReply texts (done (vectors, tokens)) = length vectors ≡ length texts
IsReply texts refused = Unit {0}
IsReply texts broken = ⊥

joined-has_vector :
    (d : ℕ) (pairs : List (ℕ × ℕ)) (spent : ℕ) (rest : Reply (List (ℕ × ℕ) × ℕ))
    (fresh : List (ℕ × ℕ)) (tokens : ℕ)
    → joined pairs spent rest ≡ done (fresh, tokens)
    → (more : List (ℕ × ℕ)) × (t : ℕ) × (rest ≡ done (more, t)) × (fresh ≡ pairs ++ more)
joined-has_vector d pairs spent (done (more, t)) fresh tokens h = (more, t, refl, ground arith)
joined-has_vector d pairs spent refused fresh tokens h = absurd (ground arith)
joined-has_vector d pairs spent broken fresh tokens h = absurd (ground arith)

pub embed_all-has_vector :
    (provider : Provider) (d : ℕ) (cs : List (List ℕ)) (fresh : List (ℕ × ℕ)) (tokens : ℕ)
    → embed_all provider cs ≡ done (fresh, tokens)
    → has_vector d fresh ≡ any (contains d) cs
unfolding embed_all fresh_vector
embed_all-has_vector provider d [] fresh tokens h = ground arith
embed_all-has_vector provider d (c ∷ cs) fresh tokens h = elim (Reply-cases (provider c)) [
  | inr (inl raised) ↦ absurd (ground arith)
  | inr (inr raised) ↦ absurd (ground arith)
  | inl ((vectors, spent), e1) ↦ elim (Option-cases (zip_strict c vectors)) [
    | inl uneven ↦ absurd (ground arith)
    | inr (pairs, e2) ↦
        let (more, t, e3, split) =
          joined-has_vector d pairs spent (embed_all provider cs) fresh tokens (ground arith) in
        ground (
          arith,
          has_vector-append d pairs more,
          has_vector-zip d c vectors pairs e2,
          embed_all-has_vector provider d cs more t e3,
        )
  ]
]

joined-kept :
    (pairs : List (ℕ × ℕ)) (spent : ℕ) (rest : Reply (List (ℕ × ℕ) × ℕ))
    → rest ≢ broken
    → joined pairs spent rest ≢ broken
joined-kept pairs spent (done (more, t)) kept = λ h. absurd (ground arith)
joined-kept pairs spent refused kept = λ h. absurd (ground arith)
joined-kept pairs spent broken kept = λ h. kept refl

pub embed_all-kept :
    (provider : Provider) (cs : List (List ℕ))
    → ((texts : List ℕ) → IsReply texts (provider texts))
    → embed_all provider cs ≢ broken
unfolding embed_all
embed_all-kept provider [] replies = λ h. absurd (ground arith)
embed_all-kept provider (c ∷ cs) replies = elim (Reply-cases (provider c)) [
  | inr (inl raised) ↦ λ h. absurd (ground arith)
  | inr (inr raised) ↦ absurd (subst (IsReply c) raised (replies c))
  | inl ((vectors, spent), e1) ↦
      let (pairs, e2) = zip_strict-total c vectors (subst (IsReply c) e1 (replies c)) in
      let kept =
        joined-kept pairs spent (embed_all provider cs) (embed_all-kept provider cs replies) in
      λ h. kept (sym (rw (e1, embed_all) (rw (e2, embed_all) refl)) ∙ h)
]

contains-append :
    (d : ℕ) (xs ys : List ℕ) → contains d (xs ++ ys) ≡ (contains d xs || contains d ys)
contains-append d [] ys = refl
contains-append d (x ∷ xs) ys = ground (arith, contains-append d xs ys)

length-drop : (n : ℕ) (xs : List ℕ) → length (drop n xs) ≤ length xs
length-drop zero xs = omega arith
length-drop (suc n) [] = omega arith
length-drop (suc n) (x ∷ xs) = omega (arith, length-drop n xs)

drop_fits :
    (n i : ℕ) (items : List ℕ) (rounds : ℕ)
    → 1 ≤ n
    → length (i ∷ items) ≤ suc rounds
    → length (drop n (i ∷ items)) ≤ rounds
drop_fits zero i items rounds pos fits = absurd (omega arith)
drop_fits (suc n) i items rounds pos fits = omega (arith, length-drop n items)

pub contains-chunks :
    (rounds n d : ℕ) (items : List ℕ)
    → 1 ≤ n
    → length items ≤ rounds
    → any (contains d) (chunks rounds n items) ≡ contains d items
unfolding chunks
contains-chunks zero n d [] pos fits = refl
contains-chunks zero n d (i ∷ items) pos fits = absurd (omega arith)
contains-chunks (suc rounds) n d [] pos fits = refl
contains-chunks (suc rounds) n d (i ∷ items) pos fits = ground (
  arith,
  contains-append d (take n (i ∷ items)) (drop n (i ∷ items)),
  ap (contains d) (take-append-drop n (i ∷ items)),
  contains-chunks rounds n d (drop n (i ∷ items)) pos (drop_fits n i items rounds pos fits),
)

pub contains-unique_from :
    (d : ℕ) (seen ids : List ℕ)
    → contains d ids ≡ true
    → contains d seen ≡ false
    → contains d (unique_from seen ids) ≡ true
unfolding unique_from
contains-unique_from d seen [] there fresh = there
contains-unique_from d seen (i ∷ ids) there fresh =
    ground (arith, ==→≡ d i, contains-unique_from d (i ∷ seen) ids, contains-unique_from d seen ids)

module _ (w : Worker) (digest : ClaimedJob → ℕ) where
  pub contains-wanted :
      (before : Jobs) (jobs : List ClaimedJob) (c : ClaimedJob)
      → Member c jobs
      → is_none (cached w digest before c) ≡ true
      → contains (digest c) (map digest (filter (λ c. is_none (cached w digest before c)) jobs))
        ≡ true
  contains-wanted before [] c m missing = elim m [ ]
  contains-wanted before (x ∷ xs) c (inl same) missing =
      rw same (rw missing (ground (arith, ==_refl (digest c))))
  contains-wanted before (x ∷ xs) c (inr m) missing =
      ground (arith, contains-wanted before xs c m missing)

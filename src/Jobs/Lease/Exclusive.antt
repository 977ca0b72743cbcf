-- ===== src/Jobs/Lease/Exclusive.antt =====
-- While a lease lasts its job is the worker's alone (backend/app/repositories/embeddings.py).
use context_ledger.Base.{
  ℕ, ◌+◌, ◌≤◌, ◌≡◌, ◌≢◌, ap, ◌∙◌, refl, true, false, Option, some, List, [], ◌∷◌, map, any,
  contains, All, ◌==◌, ==→≡, sym, arith, inl, inr, Bool-cases,
}
use context_ledger.Base.Every.{
  Member, All-map, All-filter, All-sort_by, All-take, All-every, contains-map,
}
use context_ledger.Jobs.{
  EmbeddingJob, Jobs, ClaimedJob, is_due, chosen, available, created, job_id, lease_row,
  claimed_job, claim, complete,
}
use context_ledger.Jobs.Lease.{Step, steps, Within}
use context_ledger.Jobs.Lease.Held.{
  any-map, IsLeased, Leased, not_chosen, steps-Leased, Leased-holds,
}

-- Each row that was chosen is leased by the claim.
contains-Member :
    (token : ℕ → ℕ) (c : ClaimedJob) (rows : List EmbeddingJob)
    → Member c (map (claimed_job token) rows)
    → (contains c.job_id (map job_id rows) ≡ true) × (c.lease_token ≡ token c.job_id)
contains-Member token c [] m = elim m [ ]
contains-Member token c (j ∷ js) (inl e) = ground arith
contains-Member token c (j ∷ js) (inr m) = ground (arith, contains-Member token c js m)

All-absent :
    (i : ℕ) (jobs : List EmbeddingJob)
    → any (λ (j : EmbeddingJob). j.id == i) jobs ≡ false
    → All (λ (j : EmbeddingJob). j.id ≢ i) jobs
All-absent i [] h = tt
All-absent i (j ∷ js) h = (ground arith, All-absent i js (ground arith))

-- A chosen row is a row of the table.
chosen-any :
    (model batch_size now lease : ℕ) (scope : Option ℕ) (busy : List ℕ) (i : ℕ)
    (jobs : List EmbeddingJob)
    → contains i (map job_id (chosen model batch_size now lease scope busy jobs)) ≡ true
    → any (λ (j : EmbeddingJob). j.id == i) jobs ≡ true
unfolding chosen
chosen-any model batch_size now lease scope busy i jobs h =
    elim (Bool-cases (any (λ (j : EmbeddingJob). j.id == i) jobs)) [
      | inl there ↦ there
      | inr absent ↦
          let other : EmbeddingJob → Type 0 = λ j. j.id ≢ i in
          cc (
            contains-map job_id i _ (
              All-take other batch_size _ (
                All-sort_by other available _ (
                  All-sort_by other created _ (
                    All-filter other other (is_due model now lease scope busy) jobs
                      (λ j differ due. differ) (All-absent i jobs absent))))))
    ]

lease_row-id :
    (token : ℕ → ℕ) (now : ℕ) (j : EmbeddingJob) (ids : List ℕ)
    → (lease_row token now ids j).id ≡ j.id
lease_row-id token now j ids = ground arith

IsLeased-row :
    (token : ℕ → ℕ) (now : ℕ) (ids : List ℕ) (c : ClaimedJob) (j : EmbeddingJob)
    → contains c.job_id ids ≡ true
    → c.lease_token ≡ token c.job_id
    → IsLeased c.job_id c.lease_token now (lease_row token now ids j)
IsLeased-row token now ids c j there same = elim (Bool-cases (contains j.id ids)) [
  | inl taken ↦ rw taken (elim (Bool-cases (j.id == c.job_id)) [
    | inl here ↦ inr (refl, ap some (ap token (==→≡ _ _ here) ∙ sym same), refl)
    | inr other ↦ inl (ground arith)
  ])
  | inr left ↦ rw left (inl (λ same_id. cc))
]

-- What a claim leaves of a job that it returned.
pub claim-makes-Leased :
    (model : ℕ) (token : ℕ → ℕ) (batch_size now lease : ℕ) (scope : Option ℕ) (busy : List ℕ)
    (q : Jobs) (c : ClaimedJob)
    → Member c (claim model token batch_size now lease scope busy q).0
    → Leased c.job_id c.lease_token now (claim model token batch_size now lease scope busy q).1
unfolding claim
claim-makes-Leased model token batch_size now lease scope busy q c m =
    let rows = chosen model batch_size now lease scope busy q.jobs in
    let (there, same) = contains-Member token c rows m in
    (
      All-map (IsLeased c.job_id c.lease_token now) (λ j. Unit {0})
          (lease_row token now (map job_id rows)) q.jobs
          (λ j held. IsLeased-row token now (map job_id rows) c j there same)
          (All-every (λ j. Unit {0}) q.jobs (λ j. tt)),
      any-map c.job_id (lease_row token now (map job_id rows)) q.jobs
            (λ j. lease_row-id token now j (map job_id rows))
          ∙ chosen-any model batch_size now lease scope busy c.job_id q.jobs there,
    )

map-claimed :
    (token : ℕ → ℕ) (rows : List EmbeddingJob)
    → map (λ (d : ClaimedJob). d.job_id) (map (claimed_job token) rows) ≡ map job_id rows
map-claimed token [] = refl
map-claimed token (j ∷ js) = ap (λ ids. j.id ∷ ids) (map-claimed token js)

-- A worker claimed a job. Then come any transactions, in which claims are made before the lease is
-- over by their own setting, new jobs get other ids, and the outcome of the job is not written under
-- the worker's token. After them no claim made before the lease is over by its setting returns the
-- job, and the worker's completion of it takes effect.
pub claim-exclusive :
    (model : ℕ) (token : ℕ → ℕ) (batch_size now lease : ℕ) (scope : Option ℕ) (busy : List ℕ)
    (q : Jobs) (c : ClaimedJob) (ss : List Step) (model' : ℕ) (token' : ℕ → ℕ)
    (batch_size' now' lease' : ℕ) (scope' : Option ℕ) (busy' : List ℕ)
    → Member c (claim model token batch_size now lease scope busy q).0
    → All (Within c.job_id c.lease_token now) ss
    → now' ≤ now + lease'
    → let q' = steps ss (claim model token batch_size now lease scope busy q).1 in
      (contains c.job_id (
          map
            (λ (d : ClaimedJob). d.job_id)
            (claim model' token' batch_size' now' lease' scope' busy' q').0)
        ≡ false)
      × ((complete c q').0 ≡ true)
unfolding complete claim
claim-exclusive model token batch_size now lease scope busy q c ss model' token' batch_size' now'
      lease' scope' busy' m all before =
    let held =
      steps-Leased c.job_id c.lease_token now ss _ all
        (claim-makes-Leased model token batch_size now lease scope busy q c m) in
    let rows' =
      chosen model' batch_size' now' lease' scope' busy'
        (steps ss (claim model token batch_size now lease scope busy q).1).jobs in
    (
      ap (contains c.job_id) (map-claimed token' rows')
          ∙ not_chosen c.job_id c.lease_token now model' batch_size' now' lease' scope' busy' _
              before held.0,
      Leased-holds c.job_id c.lease_token now c _ refl refl held.0 ∙ held.1,
    )

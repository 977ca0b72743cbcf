-- ===== src/Jobs/Tests.antt =====
-- Two jobs, of which a worker leases one (backend/app/repositories/embeddings.py).
use context_ledger.Base.{
  ℕ, ◌+◌, ◌*◌, ◌≤◌, ◌≡◌, min, inl, inr, refl, true, false, none, List, [], ◌∷◌, map, contains, All,
  arith,
}
use context_ledger.Base.Every.{Member}
use context_ledger.Jobs.{
  save_embedding, EmbeddingJob, ClaimedJob, Jobs, pending, claim, chosen, complete, fail,
  retry_delay, claimed_job,
}
use context_ledger.Jobs.Lease.{Step, claims, completes, saves, steps, Within}
use context_ledger.Jobs.Lease.Exclusive.{claim-exclusive}
use context_ledger.Jobs.Lease.Lost.{AddsAtMost, complete-lost}
use context_ledger.Jobs.Rows.{IsStore, steps-IsStore}
use context_ledger.Jobs.Backoff.{retry_delay-double}

abbrev job : ℕ → EmbeddingJob
job i = record {
  id = i;
  organization_id = 1;
  fact_version_id = i + 100;
  model = 4;
  status = pending;
  attempts = 0;
  available_at = i;
  created_at = i;
  locked_at = none;
  lease_token = none;
  last_error = none;
}

abbrev q : Jobs
q = record { jobs = job 8 ∷ job 7 ∷ []; embeddings = [] }

abbrev token : ℕ → ℕ
token i = i + 1_000

abbrev other_token : ℕ → ℕ
other_token i = i + 2_000

abbrev first : ClaimedJob
first = claimed_job token (job 7)

-- The oldest job is leased at 50 for 600.
leased_first : (claim 4 token 1 50 600 none [] q).0 ≡ first ∷ []
unfolding claim chosen
leased_first = refl

first-Member : Member first (claim 4 token 1 50 600 none [] q).0
unfolding claim chosen
first-Member = inl refl

-- Another worker claims what is left at 60, and completes it.
abbrev others : List Step
others =
    claims 4 other_token 1 60 600 none []
    ∷ saves 4 1 108 77 3
    ∷ completes (claimed_job other_token (job 8))
    ∷ []

within : All (Within 7 1_007 50) others
within = (omega arith, (tt, (inl (omega arith), tt)))

claim-exclusive_example :
    let q' = steps others (claim 4 token 1 50 600 none [] q).1 in
    (contains 7 (map (λ (d : ClaimedJob). d.job_id) (claim 4 other_token 9 640 600 none [] q').0)
      ≡ false)
    × ((complete first q').0 ≡ true)
claim-exclusive_example =
    claim-exclusive 4 token 1 50 600 none [] q first others 4 other_token 9 640 600 none []
      first-Member within (omega arith)

-- The lease of 600 is over at 651: what another worker claims then, the first can no longer write.
abbrev stale : Jobs
stale = (claim 4 token 1 50 600 none [] q).1

abbrev second : ClaimedJob
second = record (claimed_job other_token (job 7)) { attempts = 2 }

reclaimed :
    (claim 4 other_token 2 651 600 none [] stale).0 ≡ second ∷ claimed_job other_token (job 8) ∷ []
unfolding claim chosen
reclaimed = refl

second-Member : Member second (claim 4 other_token 2 651 600 none [] stale).0
unfolding claim chosen
second-Member = inl refl

complete-lost_example :
    let q' = steps (completes first ∷ []) (claim 4 other_token 2 651 600 none [] stale).1 in
    let saved = save_embedding 4 first.organization_id first.fact_version_id 5 6 q' in
    (fail first 5 none 700 q' ≡ q')
    × AddsAtMost 4
        (record {
          organization_id = first.organization_id;
          fact_version_id = first.fact_version_id;
          model = 4;
          embedding = 5;
          content_sha256 = 6;
        })
        q'
        saved
    × (complete first saved ≡ (false, saved))
complete-lost_example =
    complete-lost 4 other_token 2 651 600 none [] stale first second (completes first ∷ []) 5 none
      700 5 6 second-Member refl (omega arith) (inr (omega arith), tt)

q-IsStore : IsStore q
q-IsStore = record {
  consistent = ((refl, refl), ((refl, refl), tt));
  one_job = (refl, (refl, tt));
  one_embedding = tt;
}

steps-IsStore_example : IsStore (steps others q)
steps-IsStore_example = steps-IsStore others q q-IsStore

retry_delay-double_example :
    (retry_delay 0 30 3600 ≡ 0)
    × (retry_delay 1 30 3600 ≡ min 3600 30)
    × (retry_delay 5 30 3600 ≡ min 3600 (2 * retry_delay 4 30 3600))
    × (retry_delay 3 30 3600 ≤ 3600)
retry_delay-double_example = retry_delay-double 3 30 3600

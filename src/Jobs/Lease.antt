-- ===== src/Jobs/Lease.antt =====
-- What a lease keeps out (backend/app/repositories/embeddings.py).
pub mod Held
pub mod Exclusive
pub mod Lost
use context_ledger.Base.{ℕ, ◌+◌, ◌≤◌, ◌≡◌, ◌≢◌, ◌⊎◌, Bool, Option, List, [], ◌∷◌}
use context_ledger.Versions.{FactVersion}
use context_ledger.Jobs.{Jobs, ClaimedJob, enqueue_missing, claim, save_embedding, complete, fail}

-- A transaction of some worker, of whatever model.
pub data Step : Type 0 where
  enqueues :
      (model : ℕ) (new_id : ℕ → ℕ) (now limit : ℕ) (scope : Option ℕ) (versions : List FactVersion)
      → Step
  claims :
      (model : ℕ) (token : ℕ → ℕ) (batch_size now lease : ℕ) (scope : Option ℕ) (busy : List ℕ)
      → Step
  saves : (model organization_id version_id vector digest : ℕ) → Step
  completes : (c : ClaimedJob) → Step
  fails : (c : ClaimedJob) (error : ℕ) (retry_in : Option ℕ) (now : ℕ) → Step

unfoldable pub step : Step → Jobs → Jobs
step (enqueues model new_id now limit scope versions) q =
    (enqueue_missing model new_id now limit scope versions q).1
step (claims model token batch_size now lease scope busy) q =
    (claim model token batch_size now lease scope busy q).1
step (saves model o version_id vector digest) q = save_embedding model o version_id vector digest q
step (completes c) q = (complete c q).1
step (fails c error retry_in now) q = fail c error retry_in now q

unfoldable pub steps : List Step → Jobs → Jobs
steps [] q = q
steps (s ∷ ss) q = steps ss (step s q)

-- A step while a job is leased since a time: new jobs have new ids, claims come before the lease is
-- over by their own setting, and the outcome of the job is written under another token.
abbrev pub Within : ℕ → ℕ → ℕ → Step → Type 0
Within id token since (enqueues model new_id now limit scope versions) = (v : ℕ) → new_id v ≢ id
Within id token since (claims model token' batch_size now lease scope busy) = now ≤ since + lease
Within id token since (saves model o version_id vector digest) = Unit {0}
Within id token since (completes c) = (c.job_id ≢ id) ⊎ (c.lease_token ≢ token)
Within id token since (fails c error retry_in now) = (c.job_id ≢ id) ⊎ (c.lease_token ≢ token)

-- ===== src/RateLimit.antt =====
-- backend/app/cache/rate_limit.py: a fixed window for each subject, which is the key of its counter.
-- The store cannot be reached (`available` is false): the request is allowed.
pub mod Window
mod Tests
use context_ledger.Base.{
  ℕ, ◌+◌, ◌-◌, ◌/◌, max, Bool, true, false, List, [], ◌∷◌, leb, if◌then◌else◌,
}
use context_ledger.Store.{Counter, Data, increment}

pub record RateLimitDecision : Type 0 where
  pub allowed : Bool
  pub limit : ℕ
  pub remaining : ℕ
  pub retry_after_seconds : ℕ

-- The decision for a counter; `math.ceil` of thousandths.
abbrev pub decide : Counter → ℕ → RateLimitDecision
decide counter limit = record {
  allowed = leb counter.value limit;
  limit = limit;
  remaining = limit - counter.value;
  retry_after_seconds =
      if leb counter.value limit then 0 else max 1 ((counter.ttl_ms + 999) / 1000);
}

module _ {Bytes : Type 0} (str : ℕ → Bytes) (int : Bytes → ℕ) (window limit : ℕ) where
  unfoldable pub hit : Bool → ℕ → ℕ → Data Bytes → RateLimitDecision × Data Bytes
  hit available now subject d =
      let (counter, d1) = increment str int now subject window d in
      if available
      then (decide counter limit, d1)
      else (record { allowed = true; limit = limit; remaining = limit; retry_after_seconds = 0 }, d)

  -- The requests of many subjects, each with its time, and the decisions.
  unfoldable pub hit_all : List (ℕ × ℕ) → Data Bytes → List (ℕ × RateLimitDecision)
  hit_all [] d = []
  hit_all ((subject, now) ∷ hits) d =
      let (decision, d1) = hit true now subject d in (subject, decision) ∷ hit_all hits d1

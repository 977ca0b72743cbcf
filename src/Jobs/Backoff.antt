-- ===== src/Jobs/Backoff.antt =====
-- The waits between attempts (backend/app/domain/embeddings.py).
use context_ledger.Base.{ℕ, ◌+◌, ◌-◌, ◌*◌, ◌^◌, ◌≤◌, ◌≡◌, min, arith}
use native.Mathlib.Numerals.{towards_suc}
use context_ledger.Jobs.{retry_delay}

pow-double : (n base : ℕ) → base * 2 ^ (n + 2 - 1) ≡ 2 * (base * 2 ^ (n + 1 - 1))
pow-double n base =
    let up : n + 2 - 1 ≡ n + 1 = omega arith in
    let same : n + 1 - 1 ≡ n = omega arith in
    let twice : 2 ^ (n + 1) ≡ 2 * 2 ^ n = simp towards_suc (omega arith) in
    rw (up, same, twice) (grind arith)

-- A failed job waits not at all before its first attempt, the base (or the cap, if that is less)
-- after it, then twice as long after every further attempt until the cap, and never longer.
pub retry_delay-double :
    (n base cap : ℕ)
    → (retry_delay 0 base cap ≡ 0)
      × (retry_delay 1 base cap ≡ min cap base)
      × (retry_delay (n + 2) base cap ≡ min cap (2 * retry_delay (n + 1) base cap))
      × (retry_delay n base cap ≤ cap)
unfolding retry_delay
retry_delay-double n base cap = ground (arith, pow-double n base)

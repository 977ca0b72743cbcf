-- ===== src/RateLimit/Tests.antt =====
-- Two subjects and a limit of two in a minute (backend/app/cache/rate_limit.py).
use context_ledger.Base.{
  ℕ, ◌≡◌, ◌<◌, ◌≤◌, refl, Bool, true, false, none, List, [], ◌∷◌, map, count, ltb, leb, ltb→lt,
  leb→le,
}
use context_ledger.Store.{Data, lookup, pop, put, live, increment}
use context_ledger.Store.View.{view}
use context_ledger.RateLimit.{RateLimitDecision, hit, hit_all}
use context_ledger.RateLimit.Window.{is_allowed, hit_all-limit}

abbrev sent : List (ℕ × ℕ)
sent = (8, 1500) ∷ (9, 1600) ∷ (8, 2000) ∷ (8, 60999) ∷ []

-- No counter is open.
abbrev closed : Data ℕ
closed = []

abbrev verdict : ℕ × RateLimitDecision → ℕ × Bool
verdict (subject, decision) = (subject, decision.allowed)

two_allowed :
    map verdict (hit_all (λ n. n) (λ n. n) 60 2 ((8, 1000) ∷ sent) closed)
    ≡ ((8, true) ∷ (8, true) ∷ (9, true) ∷ (8, false) ∷ (8, false) ∷ [])
unfolding hit_all hit increment live lookup put pop
two_allowed = refl

none_open : view 1000 8 closed ≡ none
unfolding view lookup
none_open = refl

within : (now : ℕ) → leb 1000 now ≡ true → ltb now 61000 ≡ true → (1000 ≤ now) × (now < 61000)
within now lower upper = (leb→le _ _ lower, ltb→lt _ _ upper)

hit_all-limit_example :
    count (is_allowed 8) (hit_all (λ n. n) (λ n. n) 60 2 ((8, 1000) ∷ sent) closed) ≡ 2
hit_all-limit_example =
    hit_all-limit (λ n. n) (λ n. n) 60 2 8 1000 sent closed (λ m. refl) none_open
      (
        within 1000 refl refl,
        (
          within 1500 refl refl,
          (within 1600 refl refl, (within 2000 refl refl, (within 60999 refl refl, tt))),
        ),
      )

-- ===== src/RateLimit/Window.antt =====
-- How many requests of one subject pass in a window (backend/app/cache/rate_limit.py).
use context_ledger.Base.{
  ℕ, ◌+◌, ◌*◌, ◌<◌, ◌≤◌, ◌≡◌, sym, subst, min, Bool, true, false, none, some, List, [], ◌∷◌, ◌&&◌,
  All, count, ◌==◌, ==→≡, leb, lt→ltb, Bool-cases, Option-cases, arith, inl, inr,
}
use context_ledger.Store.{Entry, Data, lookup, live, increment}
use context_ledger.Store.View.{view, live-eq-view, live-lookup, lookup-live, lookup-put}
use context_ledger.RateLimit.{RateLimitDecision, hit, hit_all}

-- A request of the subject.
abbrev pub is_of : ℕ → ℕ × ℕ → Bool
is_of subject (other, now) = other == subject

-- An allowed request of the subject.
abbrev pub is_allowed : ℕ → ℕ × RateLimitDecision → Bool
is_allowed subject (other, decision) = other == subject && decision.allowed

-- A request in the window that opened at `start`.
abbrev pub InWindow : ℕ → ℕ → ℕ × ℕ → Type 0
InWindow start window (subject, now) = (start ≤ now) × (now < start + 1000 * window)

module _ {Bytes : Type 0} (str : ℕ → Bytes) (int : Bytes → ℕ) (window limit : ℕ) where
  -- A counter that is live counts on, and is kept by the hits of others.
  count-own :
      (subject now n expires : ℕ) (d : Data Bytes)
      → ((m : ℕ) → int (str m) ≡ m)
      → lookup subject d ≡ some (record { value = str n; expires = expires })
      → now < expires
      → ((hit str int window limit true now subject d).0.allowed ≡ leb (n + 1) limit)
        × (lookup subject (hit str int window limit true now subject d).1
            ≡ some (record { value = str (n + 1); expires = expires }))
  unfolding hit increment
  count-own subject now n expires d parse held before =
      let entry : Entry Bytes = record { value = str n; expires = expires } in
      ground (
        arith,
        parse n,
        live-lookup now subject d entry held (lt→ltb _ _ before),
        lookup-put subject subject (record { value = str (n + 1); expires = expires })
            (live now subject d).1,
      )

  count-other :
      (subject other now : ℕ) (e : Entry Bytes) (d : Data Bytes)
      → lookup subject d ≡ some e
      → now < e.expires
      → (other == subject) ≡ false
      → lookup subject (hit str int window limit true now other d).1 ≡ some e
  unfolding hit increment
  count-other subject other now e d held before differ = elim (Option-cases (live now other d).0) [
    | inl e1 ↦ ground (
      arith,
      lookup-live now other subject d e held (lt→ltb _ _ before),
      lookup-put other subject (record { value = str 1; expires = now + 1000 * window })
          (live now other d).1,
    )
    | inr (u, e1) ↦ ground (
      arith,
      lookup-live now other subject d e held (lt→ltb _ _ before),
      lookup-put other subject (record { value = str (int u.value + 1); expires = u.expires })
          (live now other d).1,
    )
  ]

  count-opened :
      (subject start : ℕ) (d : Data Bytes)
      → view start subject d ≡ none
      → ((hit str int window limit true start subject d).0.allowed ≡ leb 1 limit)
        × (lookup subject (hit str int window limit true start subject d).1
            ≡ some (record { value = str 1; expires = start + 1000 * window }))
  unfolding hit increment
  count-opened subject start d closed = ground (
    arith,
    live-eq-view start subject d,
    lookup-put subject subject (record { value = str 1; expires = start + 1000 * window })
        (live start subject d).1,
  )

  later-allowed :
      (subject start n : ℕ) (hits : List (ℕ × ℕ)) (d : Data Bytes)
      → ((m : ℕ) → int (str m) ≡ m)
      → lookup subject d ≡ some (record { value = str n; expires = start + 1000 * window })
      → All (InWindow start window) hits
      → min n limit + count (is_allowed subject) (hit_all str int window limit hits d)
        ≡ min (n + count (is_of subject) hits) limit
  unfolding hit_all
  later-allowed subject start n [] d parse held all = ground arith
  later-allowed subject start n ((other, now) ∷ hits) d parse held (lt, all) =
      let entry : Entry Bytes = record { value = str n; expires = start + 1000 * window } in
      let d1 = (hit str int window limit true now other d).1 in
      elim (Bool-cases (other == subject)) [
        | inl same ↦
            let (decided, held1) =
              subst
                (λ s.
                  (((hit str int window limit true now s d).0.allowed ≡ leb (n + 1) limit)
                    × (lookup subject (hit str int window limit true now s d).1
                        ≡ some (record { value = str (n + 1); expires = start + 1000 * window }))))
                (sym (==→≡ other subject same))
                (count-own subject now n (start + 1000 * window) d parse held lt.1) in
            ground (arith, later-allowed subject start (n + 1) hits d1 parse held1 all)
        | inr differ ↦ ground (
          arith,
          later-allowed subject start n hits d1 parse
              (count-other subject other now entry d held lt.1 differ) all,
        )
      ]

-- If a number is read back as it was written, then of the requests that a subject makes within one
-- window, counted from the request that opens it, exactly the first `limit` are allowed, whatever
-- the other subjects send.
pub hit_all-limit :
    {Bytes : Type 0} (str : ℕ → Bytes) (int : Bytes → ℕ) (window limit subject start : ℕ)
    (hits : List (ℕ × ℕ)) (d : Data Bytes)
    → ((m : ℕ) → int (str m) ≡ m)
    → view start subject d ≡ none
    → All (InWindow start window) ((subject, start) ∷ hits)
    → count (is_allowed subject) (hit_all str int window limit ((subject, start) ∷ hits) d)
      ≡ min (1 + count (is_of subject) hits) limit
unfolding hit_all
hit_all-limit str int window limit subject start hits d parse closed (opening, all) =
    let d1 = (hit str int window limit true start subject d).1 in
    let (decided, held) = count-opened str int window limit subject start d closed in
    ground
      (arith, decided, later-allowed str int window limit subject start 1 hits d1 parse held all)

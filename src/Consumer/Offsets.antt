-- ===== src/Consumer/Offsets.antt =====
-- The offsets that a consumer commits: `next_offsets` of backend/app/events/consumer.py.
use context_ledger.Base.{
  ℕ, ◌+◌, ◌<◌, ◌≤◌, ◌≡◌, ◌⊎◌, refl, sym, ap, subst, ◌∙◌, max, Bool, true, false, ◌&&◌, Option, none,
  some, List, [], ◌∷◌, any, All, ◌==◌, ==→≡, if◌then◌else◌, arith, Bool-cases, inl, inr,
}
use context_ledger.Consumer.{IncomingMessage}

-- A dictionary by topic and partition.
abbrev pub Offsets : Type 0
Offsets = List ((ℕ × ℕ) × ℕ)

unfoldable pub offset_at : ℕ → ℕ → Offsets → Option ℕ
offset_at topic partition [] = none
offset_at topic partition (((t, p), n) ∷ rest) =
    let found = offset_at topic partition rest in
    if t == topic && p == partition then some n else found

unfoldable pub set_offset : ℕ → ℕ → ℕ → Offsets → Offsets
set_offset topic partition n [] = ((topic, partition), n) ∷ []
set_offset topic partition n (((t, p), m) ∷ rest) =
    let later = set_offset topic partition n rest in
    if t == topic && p == partition then ((t, p), n) ∷ rest else ((t, p), m) ∷ later

abbrev pub offset_or : Option ℕ → ℕ
offset_or none = 0
offset_or (some n) = n

-- The loop, with the dictionary so far.
unfoldable pub add_offsets : Offsets → List IncomingMessage → Offsets
add_offsets offsets [] = offsets
add_offsets offsets (m ∷ ms) =
    add_offsets
      (set_offset m.topic m.partition
        (max (offset_or (offset_at m.topic m.partition offsets)) (m.offset + 1)) offsets)
      ms

unfoldable pub next_offsets : List IncomingMessage → Offsets
next_offsets processed = add_offsets [] processed

module _ (topic partition : ℕ) where
  abbrev pub is_of : IncomingMessage → Bool
  is_of m = m.topic == topic && m.partition == partition

  set-at :
      (t p n : ℕ) (offsets : Offsets)
      → offset_at topic partition (set_offset t p n offsets)
        ≡ (if t == topic && p == partition then some n else offset_at topic partition offsets)
  unfolding offset_at set_offset
  set-at t p n [] = refl
  set-at t p n (((u, q), m) ∷ rest) =
      ground (arith, set-at t p n rest, ==→≡ u t, ==→≡ q p, ==→≡ t topic, ==→≡ p partition)

  -- One past the greatest offset of the partition among the messages, from a start.
  abbrev pub IsNext : Option ℕ → List IncomingMessage → Option ℕ → Type 0
  IsNext start ms none = (start ≡ none) × (any is_of ms ≡ false)
  IsNext start ms (some n) =
      All (λ m. (is_of m ≡ false) ⊎ (m.offset < n)) ms
      × (offset_or start ≤ n)
      × ((start ≡ some n) ⊎ (any (λ m. is_of m && (m.offset + 1 == n)) ms ≡ true))

  unfoldable highest : Option ℕ → List IncomingMessage → Option ℕ
  highest start [] = start
  highest start (m ∷ ms) =
      highest (if is_of m then some (max (offset_or start) (m.offset + 1)) else start) ms

  add-highest :
      (ms : List IncomingMessage) (offsets : Offsets)
      → offset_at topic partition (add_offsets offsets ms)
        ≡ highest (offset_at topic partition offsets) ms
  unfolding add_offsets highest
  add-highest [] offsets = refl
  add-highest (m ∷ ms) offsets =
      let n = max (offset_or (offset_at m.topic m.partition offsets)) (m.offset + 1) in
      add-highest ms (set_offset m.topic m.partition n offsets)
      ∙ ap (λ s. highest s ms)
          (ground (
            arith,
            set-at m.topic m.partition n offsets,
            ==→≡ m.topic topic,
            ==→≡ m.partition partition,
          ))

  Next-here :
      (start : Option ℕ) (m : IncomingMessage) (ms : List IncomingMessage) (r : Option ℕ)
      → is_of m ≡ true
      → IsNext (some (max (offset_or start) (m.offset + 1))) ms r
      → IsNext start (m ∷ ms) r
  Next-here start m ms none here (nothing, rest) = cc
  Next-here none m ms (some k) here (all, le, inl e) =
      ((inr (omega arith), all), omega arith, inr (ground (arith, here, e)))
  Next-here none m ms (some k) here (all, le, inr e) =
      ((inr (omega arith), all), omega arith, inr (ground (arith, e)))
  Next-here (some n) m ms (some k) here (all, le, inr e) =
      ((inr (omega arith), all), omega arith, inr (ground (arith, e)))
  Next-here (some n) m ms (some k) here (all, le, inl e) =
      let same : max n (m.offset + 1) ≡ k = ground (arith, e) in
      (
        (inr (omega arith), all),
        omega arith,
        elim (Bool-cases (m.offset + 1 == k)) [
          | inl reached ↦ inr (ground (arith, here, reached))
          | inr not_reached ↦ inl (ap some (ground (arith, same, not_reached)))
        ],
      )

  Next-other :
      (start : Option ℕ) (m : IncomingMessage) (ms : List IncomingMessage) (r : Option ℕ)
      → is_of m ≡ false
      → IsNext start ms r
      → IsNext start (m ∷ ms) r
  Next-other start m ms none other (nothing, rest) = (nothing, ground (arith, other, rest))
  Next-other start m ms (some k) other (all, le, inl e) = ((inl other, all), le, inl e)
  Next-other start m ms (some k) other (all, le, inr e) =
      ((inl other, all), le, inr (ground (arith, e)))

  highest-Next : (start : Option ℕ) (ms : List IncomingMessage) → IsNext start ms (highest start ms)
  unfolding highest
  highest-Next none [] = (refl, refl)
  highest-Next (some n) [] = (tt, omega arith, inl refl)
  highest-Next start (m ∷ ms) =
      let reached = highest-Next (some (max (offset_or start) (m.offset + 1))) ms in
      let unchanged = highest-Next start ms in
      elim (Bool-cases (is_of m)) [
        | inl here ↦ rw here (Next-here start m ms _ here reached)
        | inr other ↦ rw other (Next-other start m ms _ other unchanged)
      ]

-- One past the last message of the partition, or nothing.
abbrev pub IsCommit : ℕ → ℕ → List IncomingMessage → Option ℕ → Type 0
IsCommit topic partition ms none = any (is_of topic partition) ms ≡ false
IsCommit topic partition ms (some n) =
    All (λ m. (is_of topic partition m ≡ false) ⊎ (m.offset < n)) ms
    × (any (λ m. is_of topic partition m && (m.offset + 1 == n)) ms ≡ true)

-- The offset that is committed for a partition is one past the last processed message of it: there
-- is none exactly if no processed message is of the partition; otherwise it is above the offset of
-- each of them, and one past the offset of one, in whatever order they were processed.
pub next_offsets-Commit :
    (topic partition : ℕ) (processed : List IncomingMessage)
    → IsCommit topic partition processed (offset_at topic partition (next_offsets processed))
unfolding next_offsets offset_at
next_offsets-Commit topic partition processed =
    subst (IsCommit topic partition processed) (sym (add-highest topic partition processed [])) (
      to_commit (highest topic partition none processed)
        (highest-Next topic partition none processed))
  where
    to_commit :
        (r : Option ℕ)
        → IsNext topic partition none processed r
        → IsCommit topic partition processed r
    to_commit none (e, free) = free
    to_commit (some n) (all, le, inl e) = cc
    to_commit (some n) (all, le, inr e) = (all, e)

-- ===== src/Temporal/Chain.antt =====
-- The chain of one fact's versions, newest first: what the write path keeps (Recording.antt) and
-- what makes temporal resolution deterministic.
use context_ledger.Base.{
  ℕ, ◌+◌, ◌≤◌, ◌<◌, ◌≡◌, refl, Bool, false, ◌&&◌, Option, none, some, List, [], ◌∷◌, map, count,
  arith,
}
use context_ledger.Versions.{FactVersion, VersionSnapshot, to_snapshot}
use context_ledger.Temporal.{is_known, as_known, is_valid_at}

-- An end and the time when it was learned: both or neither, the end after the start, and learned
-- no earlier than the version.
abbrev pub EndFits : ℕ → ℕ → Option ℕ → Option ℕ → Type 0
EndFits from recorded none none = Unit
EndFits from recorded (some u) (some r) = (from < u) × (recorded ≤ r)
EndFits from recorded _ _ = ⊥

-- An end at or before `from`, learned at or before `recorded`.
abbrev pub ClosedBy : ℕ → ℕ → Option ℕ → Option ℕ → Type 0
ClosedBy from recorded (some u) (some r) = (u ≤ from) × (r ≤ recorded)
ClosedBy from recorded _ _ = ⊥

-- `v` comes directly after the versions `older`, newest first.
abbrev pub Follows : FactVersion → List FactVersion → Type 0
Follows v [] = (v.version ≡ 1) × (v.supersedes_id ≡ none)
Follows v (w ∷ older) =
    (v.version ≡ w.version + 1)
    × (v.supersedes_id ≡ some w.id)
    × (w.valid_from < v.valid_from)
    × (w.recorded_at < v.recorded_at)
    × ClosedBy v.valid_from v.recorded_at w.valid_until w.valid_until_recorded_at

abbrev pub IsChain : List FactVersion → Type 0
IsChain [] = Unit
IsChain (v ∷ older) =
    EndFits v.valid_from v.recorded_at v.valid_until v.valid_until_recorded_at
    × Follows v older
    × IsChain older

-- Known at `k`, and valid at `t` as it looked then.
unfoldable pub matches : ℕ → Option ℕ → VersionSnapshot → Bool
matches t k v = is_known v k && is_valid_at (as_known v k) t

-- Every version of `older` has ended by `from`, and its end was learned by `recorded`.
abbrev pub AllClosed : ℕ → ℕ → List FactVersion → Type 0
AllClosed from recorded [] = Unit
AllClosed from recorded (w ∷ older) =
    ClosedBy from recorded w.valid_until w.valid_until_recorded_at × AllClosed from recorded older

closed_weaken :
    (w : FactVersion) (f f' r r' : ℕ)
    → ClosedBy f r w.valid_until w.valid_until_recorded_at
    → f ≤ f'
    → r ≤ r'
    → ClosedBy f' r' w.valid_until w.valid_until_recorded_at
closed_weaken w f f' r r' c hf hr = ground arith

AllClosed-weaken :
    (older : List FactVersion) (f f' r r' : ℕ)
    → AllClosed f r older
    → f ≤ f'
    → r ≤ r'
    → AllClosed f' r' older
AllClosed-weaken [] f f' r r' c hf hr = tt
AllClosed-weaken (w ∷ older) f f' r r' c hf hr =
    (closed_weaken w f f' r r' c.0 hf hr, AllClosed-weaken older f f' r r' c.1 hf hr)

pub chain-AllClosed :
    (v : FactVersion) (older : List FactVersion)
    → IsChain (v ∷ older)
    → AllClosed v.valid_from v.recorded_at older
chain-AllClosed v [] h = tt
chain-AllClosed v (w ∷ older) (fits, (n, s, lf, lr, closed), rest) = (
  closed,
  AllClosed-weaken older _ _ _ _ (chain-AllClosed w older rest) (omega arith) (omega arith),
)

-- A closed version no longer matches from its closer's start on, once the closer is known.
closed-no-match :
    (w : FactVersion) (f r t : ℕ) (k : Option ℕ)
    → ClosedBy f r w.valid_until w.valid_until_recorded_at
    → f ≤ t
    → ((n : ℕ) → k ≡ some n → r ≤ n)
    → matches t k (to_snapshot w) ≡ false
unfolding matches
closed-no-match w f r t none c hf hk = ground arith
closed-no-match w f r t (some n) c hf hk = ground (arith, hk n)

pub closed-count :
    (older : List FactVersion) (f r t : ℕ) (k : Option ℕ)
    → AllClosed f r older
    → f ≤ t
    → ((n : ℕ) → k ≡ some n → r ≤ n)
    → count (matches t k) (map to_snapshot older) ≡ 0
closed-count [] f r t k c hf hk = refl
closed-count (w ∷ older) f r t k c hf hk =
    rw (closed-no-match w f r t k c.0 hf hk) (closed-count older f r t k c.1 hf hk)

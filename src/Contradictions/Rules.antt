-- ===== src/Contradictions/Rules.antt =====
-- The rules against their description in the module's comment.
use context_ledger.Base.{
  ℕ, ◌≤◌, ◌<◌, ◌≡◌, ◌≢◌, ◌↔◌, ◌⊎◌, sym, ltb, Option, none, some, arith, Option-cases, Bool-cases,
  inl, inr,
}
use context_ledger.Contradictions.{VersionFacts, Reason, value_conflict, preferred}

-- The instant lies before the end, if there is one.
abbrev pub BeforeEnd : ℕ → Option ℕ → Type 0
BeforeEnd t none = Unit
BeforeEnd t (some u) = t < u

-- The instant is not before an end, which there is.
abbrev pub AtOrPastEnd : ℕ → Option ℕ → Type 0
AtOrPastEnd t none = ⊥
AtOrPastEnd t (some u) = u ≤ t

-- Different sources give different values, and the previous source observed its value within that
-- version's validity and not before the new version starts.
pub record IsDisputed (p n : VersionFacts) : Type 0 where
  pub sources_differ : p.source_id ≢ n.source_id
  pub values_differ : p.value ≢ n.value
  pub within : BeforeEnd p.observed_at p.valid_until
  pub started : n.valid_from ≤ p.observed_at

-- The two versions say different things of the instant of that observation: the new one covers it.
abbrev pub IsConflict : VersionFacts → VersionFacts → Type 0
IsConflict p n = IsDisputed p n × BeforeEnd p.observed_at n.valid_until

-- They do not: the new version ended at that instant or before it.
abbrev pub IsOverdue : VersionFacts → VersionFacts → Type 0
IsOverdue p n = IsDisputed p n × AtOrPastEnd p.observed_at n.valid_until

compare : (m n : ℕ) → (m < n) ⊎ (n < m) ⊎ (m ≡ n)
compare m n = elim (Bool-cases (ltb m n)) [
  | inl below ↦ inl (ground arith)
  | inr b ↦ elim (Bool-cases (ltb n m)) [
    | inl above ↦ inr (inl (ground arith))
    | inr c ↦ inr (inr (ground arith))
  ]
]

-- What the rule flags.
abbrev pub IsFlagged : VersionFacts → VersionFacts → Type 0
IsFlagged p n = IsConflict p n ⊎ IsOverdue p n

covered_or_overdue : (p n : VersionFacts) → IsDisputed p n → IsFlagged p n
covered_or_overdue p n d = elim (Option-cases n.valid_until) [
  | inl e ↦ inl (d, rw e tt)
  | inr (u, e) ↦ elim (Bool-cases (ltb p.observed_at u)) [
    | inl before ↦ inl (d, rw e (ground arith))
    | inr after ↦ inr (d, rw e (ground arith))
  ]
]

-- The rule flags two versions exactly if they are disputed at an instant that the new version covers,
-- or that lies at or after the end of the new version, which the rule does not look at. The reason
-- that it gives names the previous source, its observation and the new start.
pub value_conflict-IsFlagged :
    (p n : VersionFacts) (r : Reason)
    → (value_conflict p n ≡ some r) ↔ (
        IsFlagged p n
        × (r ≡ record {
          source_id = p.source_id;
          observed_at = p.observed_at;
          valid_from = n.valid_from;
        }))
unfolding value_conflict
value_conflict-IsFlagged p n r = elim (Option-cases p.valid_until) [
  | inl e ↦ (λ h. (covered_or_overdue p n (ground arith), ground arith), λ h. ground arith)
  | inr (u, e) ↦ (λ h. (covered_or_overdue p n (ground arith), ground arith), λ h. ground arith)
]

-- The first version ranks below the second: by authority, then confidence, then time of observation.
pub data RanksBelow (a b : VersionFacts) : Type 0 where
  by_authority : a.authority < b.authority → RanksBelow a b
  by_confidence : a.authority ≡ b.authority → a.confidence < b.confidence → RanksBelow a b
  by_observation :
      a.authority ≡ b.authority
      → a.confidence ≡ b.confidence
      → a.observed_at < b.observed_at
      → RanksBelow a b

-- In whichever order two versions are given, the one that ranks higher is preferred: the one of the
-- higher authority, at equal authority the one of the higher confidence, and at equal confidence too
-- the one observed later. If they agree in all three, the one given first is preferred.
pub preferred-RanksBelow :
    (a b : VersionFacts)
    → (RanksBelow a b × (preferred a b ≡ b.id) × (preferred b a ≡ b.id))
      ⊎ (RanksBelow b a × (preferred a b ≡ a.id) × (preferred b a ≡ a.id))
      ⊎ ((a.authority ≡ b.authority)
          × (a.confidence ≡ b.confidence)
          × (a.observed_at ≡ b.observed_at)
          × (preferred a b ≡ a.id)
          × (preferred b a ≡ b.id))
unfolding preferred
preferred-RanksBelow a b = elim (compare a.authority b.authority) [
  | inl below ↦ inl (by_authority below, ground arith, ground arith)
  | inr (inl above) ↦ inr (inl (by_authority above, ground arith, ground arith))
  | inr (inr same) ↦ elim (compare a.confidence b.confidence) [
    | inl below ↦ inl (by_confidence same below, ground arith, ground arith)
    | inr (inl above) ↦ inr (inl (by_confidence (sym same) above, ground arith, ground arith))
    | inr (inr same_too) ↦ elim (compare a.observed_at b.observed_at) [
      | inl below ↦ inl (by_observation same same_too below, ground arith, ground arith)
      | inr (inl above) ↦
          inr (inl (by_observation (sym same) (sym same_too) above, ground arith, ground arith))
      | inr (inr all) ↦ inr (inr (same, same_too, all, ground arith, ground arith))
    ]
  ]
]

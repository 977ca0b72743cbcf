-- ===== src/Recording/Past.antt =====
-- What was known of a fact before a write is not changed by the write.
use mathlib.Core.List.{append-nil}
use context_ledger.Base.{
  ℕ, ◌<◌, ◌≡◌, refl, sym, ◌∙◌, ap, Option, none, some, List, [], ◌∷◌, ◌++◌, map, filter, arith,
  Option-cases, inl, inr,
}
use context_ledger.Base.Sort.{sort_by}
use context_ledger.Versions.{FactVersion, VersionSnapshot, to_snapshot}
use context_ledger.Temporal.{is_known, as_known, known_versions}
use context_ledger.Temporal.Chain.{IsChain, EndFits}
use context_ledger.Temporal.Resolve.{snapshots, version_of, sort-chain}
use context_ledger.Recording.{close_row}
use context_ledger.Recording.Rows.{close_head}

known_list : ℕ → List VersionSnapshot → List VersionSnapshot
known_list k xs = map (λ v. as_known v (some k)) (filter (λ v. is_known v (some k)) xs)

known_list-append :
    (k : ℕ) (xs ys : List VersionSnapshot)
    → known_list k (xs ++ ys) ≡ known_list k xs ++ known_list k ys
unfolding known_list
known_list-append k [] ys = refl
known_list-append k (x ∷ xs) ys = ground (arith, known_list-append k xs ys)

-- An end that was learned after `k` is not known at `k`.
known-close_head :
    (o k t : ℕ) (close_at : Option ℕ) (v : FactVersion)
    → EndFits v.valid_from v.recorded_at v.valid_until v.valid_until_recorded_at
    → k < t
    → known_list k (to_snapshot (close_head o close_at t v) ∷ [])
      ≡ known_list k (to_snapshot v ∷ [])
unfolding known_list close_head close_row
known-close_head o k t none v fits lt = refl
known-close_head o k t (some u) v fits lt = elim (Option-cases v.valid_until) [
  | inl e ↦ ground arith
  | inr (u', e) ↦ ground arith
]

known-new :
    (k : ℕ) (row : FactVersion) → k < row.recorded_at → known_list k (to_snapshot row ∷ []) ≡ []
unfolding known_list
known-new k row lt = ground arith

pub past_first :
    (k : ℕ) (row : FactVersion)
    → k < row.recorded_at
    → known_versions (snapshots (row ∷ [])) (some k) ≡ known_versions (snapshots []) (some k)
unfolding known_versions
past_first k row lt = unfold known_list in known-new k row lt

known_step :
    (o k : ℕ) (close_at : Option ℕ) (row v : FactVersion) (before : List VersionSnapshot)
    → EndFits v.valid_from v.recorded_at v.valid_until v.valid_until_recorded_at
    → k < row.recorded_at
    → known_list k (
        (before ++ to_snapshot (close_head o close_at row.recorded_at v) ∷ [])
        ++ to_snapshot row ∷ [])
      ≡ known_list k (before ++ to_snapshot v ∷ [])
known_step o k close_at row v before fits lt =
    let v' = to_snapshot (close_head o close_at row.recorded_at v) in
    known_list-append k (before ++ v' ∷ []) (to_snapshot row ∷ [])
    ∙ ap (λ r. known_list k (before ++ v' ∷ []) ++ r) (known-new k row lt)
    ∙ append-nil _
    ∙ known_list-append k before (v' ∷ [])
    ∙ ap (λ r. known_list k before ++ r) (known-close_head o k row.recorded_at close_at v fits lt)
    ∙ sym (known_list-append k before (to_snapshot v ∷ []))

pub past_next :
    (o k : ℕ) (close_at : Option ℕ) (row v : FactVersion) (older : List FactVersion)
    → IsChain (v ∷ older)
    → IsChain (row ∷ close_head o close_at row.recorded_at v ∷ older)
    → k < row.recorded_at
    → known_versions (snapshots (row ∷ close_head o close_at row.recorded_at v ∷ older)) (some k)
      ≡ known_versions (snapshots (v ∷ older)) (some k)
unfolding known_versions
past_next o k close_at row v older h h' lt =
    let v' = close_head o close_at row.recorded_at v in
    let before = sort_by version_of (snapshots older) in
    rw (sort-chain row (v' ∷ older) h', sort-chain v' older h'.2, sort-chain v older h)
      (unfold known_list in known_step o k close_at row v before h.0 lt)

-- ===== src/Receipts/ReliedOn.antt =====
-- What a decision may rely on: `validate_relied_on` of backend/app/domain/decisions.py.
pub mod Exact
use context_ledger.Base.{
  ℕ, ◌≡◌, ◌≤◌, ◌↔◌, refl, Bool, true, false, not, ◌&&◌, ◌||◌, List, [], ◌∷◌, length, contains, any,
  All, ◌==◌, ltb, arith, if◌then◌else◌, Bool-cases, inl, inr,
}
use context_ledger.Base.Sort.{sort_by}
use context_ledger.Errors.{Result, err, ok, raise_if, validation_failed, ◌>>◌}

abbrev pub max_relied_on : ℕ
max_relied_on = 50

-- `len(ids) != len(set(ids))`
abbrev pub has_duplicate : List ℕ → Bool
has_duplicate [] = false
has_duplicate (i ∷ ids) = contains i ids || has_duplicate ids

abbrev pub itself : ℕ → ℕ
itself i = i

unfoldable pub validate_relied_on : List ℕ → List ℕ → Result (List ℕ)
validate_relied_on ids snapshot_facts = do
  raise_if (has_duplicate ids) validation_failed
  raise_if (ltb max_relied_on (length ids)) validation_failed
  raise_if (any (λ i. not (contains i snapshot_facts)) ids) validation_failed
  ok (sort_by itself ids)

-- ===== src/Authority.antt =====
-- backend/app/domain/validation.py, `validate_authority`: an authority as a caller gives it. Python's
-- `bool` is a kind of `int`.
use context_ledger.Base.{ℕ, Bool, ltb}
use context_ledger.Errors.{Result, ok, err, raise_if, validation_failed, ◌>>◌}

pub data ℤ : Type 0 where
  pos : ℕ → ℤ
  negsuc : ℕ → ℤ

pub data Authority : Type 0 where
  integer : ℤ → Authority
  boolean : Bool → Authority

unfoldable pub validate_authority : Authority → Result ℕ
validate_authority (boolean b) = err validation_failed
validate_authority (integer (negsuc n)) = err validation_failed
validate_authority (integer (pos a)) = do raise_if (ltb 100 a) validation_failed; ok a

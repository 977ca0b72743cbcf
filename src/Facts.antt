-- ===== src/Facts.antt =====
-- backend/app/domain/facts.py: time stamps, validity windows, and the plan of a new version. An
-- instant is its number of microseconds; a stamp without a time zone is no instant.
pub mod Plan
mod Tests
use context_ledger.Base.{ℕ, ◌+◌, Bool, true, ◌&&◌, Option, none, some, leb, ltb}
use context_ledger.Errors.{Result, ok, err, raise_if, validation_failed, conflict, ◌>>=◌, ◌>>◌}

-- A `datetime`: aware at an instant, or naive with its wall-clock reading.
pub data Stamp : Type 0 where
  aware : ℕ → Stamp
  naive : ℕ → Stamp

unfoldable pub require_aware : Stamp → Result ℕ
require_aware (aware t) = ok t
require_aware (naive t) = err validation_failed

unfoldable pub require_aware_opt : Option Stamp → Result (Option ℕ)
unfolding require_aware
require_aware_opt none = ok none
require_aware_opt (some s) = do t ← require_aware s; ok (some t)

pub record ValidityWindow : Type 0 where
  pub valid_from : ℕ
  pub valid_until : Option ℕ

-- `valid_until is None or instant < valid_until`
abbrev pub ends_after : ℕ → Option ℕ → Bool
ends_after instant none = true
ends_after instant (some u) = ltb instant u

-- `ValidityWindow(valid_from, valid_until)` with its `__post_init__`.
unfoldable pub check_end : ℕ → Option ℕ → Result ValidityWindow
check_end f none = ok (record { valid_from = f; valid_until = none })
check_end f (some u) = do
  raise_if (leb u f) validation_failed
  ok (record { valid_from = f; valid_until = some u })

unfoldable pub make_window : Stamp → Option Stamp → Result ValidityWindow
unfolding check_end require_aware require_aware_opt
make_window valid_from valid_until = do
  f ← require_aware valid_from
  u ← require_aware_opt valid_until
  check_end f u

unfoldable pub covers : ValidityWindow → Stamp → Result Bool
unfolding require_aware
covers w instant = do
  t ← require_aware instant
  ok (leb w.valid_from t && ends_after t w.valid_until)

pub record LatestVersion : Type 0 where
  pub version : ℕ
  pub window : ValidityWindow

pub record VersionPlan : Type 0 where
  pub version : ℕ
  pub close_previous_at : Option ℕ

-- The branch on whether the previous version is open.
plan_after : ℕ → Option ℕ → ℕ → Result VersionPlan
plan_after version none from = ok (record { version = version + 1; close_previous_at = some from })
plan_after version (some until) from = do
  raise_if (ltb from until) conflict
  ok (record { version = version + 1; close_previous_at = none })

unfoldable pub plan_new_version : Option LatestVersion → ValidityWindow → Result VersionPlan
unfolding plan_after
plan_new_version none window = ok (record { version = 1; close_previous_at = none })
plan_new_version (some latest) window = do
  raise_if (leb window.valid_from latest.window.valid_from) conflict
  plan_after latest.version latest.window.valid_until window.valid_from

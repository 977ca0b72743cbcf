-- ===== src/Facts/Tests.antt =====
-- Runs and instances for backend/app/domain/facts.py.
use context_ledger.Base.{◌≡◌, refl, false, none, some}
use context_ledger.Errors.{ok, err, validation_failed, conflict}
use context_ledger.Facts.{
  aware, naive, ValidityWindow, LatestVersion, make_window, check_end, require_aware,
  require_aware_opt, covers, plan_new_version,
}
use context_ledger.Facts.Plan.{IsPlanned, plan_new_version-IsPlanned}

abbrev open_from_10 : ValidityWindow
open_from_10 = record { valid_from = 10; valid_until = none }

abbrev third : LatestVersion
third = record { version = 3; window = open_from_10 }

empty_window : make_window (aware 10) (some (aware 10)) ≡ err validation_failed
unfolding make_window check_end require_aware require_aware_opt
empty_window = refl

naive_window : make_window (naive 10) none ≡ err validation_failed
unfolding make_window require_aware
naive_window = refl

-- The end of a window is not in it.
covers_end : covers (record { valid_from = 10; valid_until = some 20 }) (aware 20) ≡ ok false
unfolding covers require_aware
covers_end = refl

plan_same_start : plan_new_version (some third) open_from_10 ≡ err conflict
unfolding plan_new_version
plan_same_start = refl

plan_new_version-IsPlanned_example :
    IsPlanned
      (some third)
      (record { valid_from = 12; valid_until = some 20 })
      (plan_new_version (some third) (record { valid_from = 12; valid_until = some 20 }))
plan_new_version-IsPlanned_example =
    plan_new_version-IsPlanned (some third) (record { valid_from = 12; valid_until = some 20 })

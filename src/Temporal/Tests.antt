-- ===== src/Temporal/Tests.antt =====
-- Runs and instances for backend/app/temporal/reference.py and backend/app/repositories/temporal.py.
use context_ledger.Base.{◌≡◌, refl, ◌&&◌, none, some, List, [], ◌∷◌, arith}
use context_ledger.Privacy.{internal}
use context_ledger.Errors.{ok}
use context_ledger.Facts.{aware}
use context_ledger.Versions.{FactVersion, to_snapshot}
use context_ledger.Temporal.{
  is_known, as_known, is_valid_at, resolve, change_between, not_revoked_condition,
  valid_at_condition,
}
use context_ledger.Temporal.Sql.{valid_at_condition-eq_reference}
use context_ledger.Temporal.Chain.{IsChain}
use context_ledger.Temporal.Resolve.{as_of, stamp_opt, snapshots, resolve-eq-as_of}
use context_ledger.Temporal.Change.{change_between-none_constant}

-- Valid from 100, recorded at 1000; its end, 200, was learned at 2000.
abbrev first : FactVersion
first = record {
  id = 1;
  organization_id = 7;
  fact_id = 9;
  version = 1;
  value = 5;
  source_id = 3;
  valid_from = 100;
  valid_until = some 200;
  observed_at = 100;
  recorded_at = 1000;
  valid_until_recorded_at = some 2000;
  supersedes_id = none;
  authority = 50;
  confidence = 1000;
  privacy_scope = internal;
}

-- Valid from 200, recorded at 2000, open.
abbrev second : FactVersion
second = record first {
  id = 2;
  version = 2;
  value = 6;
  valid_from = 200;
  valid_until = none;
  recorded_at = 2000;
  valid_until_recorded_at = none;
  supersedes_id = some 1;
}

abbrev chain : List FactVersion
chain = second ∷ first ∷ []

chain-IsChain : IsChain chain
chain-IsChain = ground arith

-- Before the second version was recorded the first one looked open-ended.
resolve_before :
    resolve (snapshots chain) (aware 250) (some (aware 1500))
    ≡ ok (some (record (to_snapshot first) { valid_until = none; valid_until_recorded_at = none }))
unfolding resolve
resolve_before = refl

resolve_after : resolve (snapshots chain) (aware 250) none ≡ ok (some (to_snapshot second))
unfolding resolve
resolve_after = refl

valid_at_condition-eq_reference_example : valid_at_condition (1800 ∷ []) first 250 (some 1500) ≡ (
    not_revoked_condition (1800 ∷ []) (some 1500)
    && is_known (to_snapshot first) (some 1500)
    && is_valid_at (as_known (to_snapshot first) (some 1500)) 250)
valid_at_condition-eq_reference_example =
    valid_at_condition-eq_reference (1800 ∷ []) first 250 (some 1500)

resolve-eq-as_of_example :
    resolve (snapshots chain) (aware 150) (stamp_opt (some 2500)) ≡ ok (as_of 150 (some 2500) chain)
resolve-eq-as_of_example = resolve-eq-as_of 150 (some 2500) chain chain-IsChain

unchanged : change_between (snapshots chain) (aware 210) (aware 300) (stamp_opt none) ≡ ok none
unfolding change_between
unchanged = refl

change_between-none_constant_example :
    resolve (snapshots chain) (aware 250) (stamp_opt none)
    ≡ resolve (snapshots chain) (aware 210) (stamp_opt none)
change_between-none_constant_example =
    change_between-none_constant 210 250 300 none chain chain-IsChain unchanged (omega arith)
      (omega arith)

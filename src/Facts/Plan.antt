-- ===== src/Facts/Plan.antt =====
-- What a plan promises (backend/app/domain/facts.py).
use context_ledger.Base.{
  ℕ, ◌+◌, ◌≤◌, ◌<◌, ◌≡◌, refl, ◌⊎◌, Option, none, some, arith, Option-cases, inl, inr,
}
use context_ledger.Errors.{Result, ok, err, conflict}
use context_ledger.Facts.{ValidityWindow, LatestVersion, VersionPlan, plan_new_version}

-- A fixed end after `t`.
abbrev pub EndsPast : Option ℕ → ℕ → Type 0
EndsPast none t = ⊥
EndsPast (some u) t = t < u

-- What becomes of the previous version's end: an open version is closed at the new start exactly, and
-- a fixed end, which is at or before the new start, stays.
abbrev pub Closes : Option ℕ → ℕ → Option ℕ → Type 0
Closes none start close = close ≡ some start
Closes (some until) start close = (close ≡ none) × (until ≤ start)

abbrev pub IsPlanned : Option LatestVersion → ValidityWindow → Result VersionPlan → Type 0
IsPlanned none w (ok p) = (p.version ≡ 1) × (p.close_previous_at ≡ none)
IsPlanned none w (err e) = ⊥
IsPlanned (some l) w (ok p) =
    (p.version ≡ l.version + 1)
    × (l.window.valid_from < w.valid_from)
    × Closes l.window.valid_until w.valid_from p.close_previous_at
IsPlanned (some l) w (err e) =
    (e ≡ conflict)
    × ((w.valid_from ≤ l.window.valid_from) ⊎ EndsPast l.window.valid_until w.valid_from)

-- Without a latest version the plan is the first version, and nothing is closed. With one, the plan
-- takes the next number, starts strictly later, and closes an open previous version exactly at the
-- new start, while a fixed end, at or before that start, is left as it is. It is refused, as a
-- conflict, only if the new version would not start later, or would start before a fixed end.
pub plan_new_version-IsPlanned :
    (latest : Option LatestVersion) (w : ValidityWindow)
    → IsPlanned latest w (plan_new_version latest w)
unfolding plan_new_version
plan_new_version-IsPlanned none w = (refl, refl)
plan_new_version-IsPlanned (some l) w = elim (Option-cases l.window.valid_until) [
  | inl e ↦ ground arith
  | inr (u, e) ↦ ground arith
]

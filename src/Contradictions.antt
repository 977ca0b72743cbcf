-- ===== src/Contradictions.antt =====
-- backend/app/domain/contradictions.py: when a new version contradicts the one before, and which
-- of the two the rules prefer.
pub mod Rules
mod Tests
use context_ledger.Base.{
  ℕ, Bool, true, false, not, ◌&&◌, ◌||◌, Option, none, some, ◌==◌, leb, ltb, if◌then◌else◌,
}
use context_ledger.Versions.{FactVersion}

pub record VersionFacts : Type 0 where
  pub id : ℕ
  pub source_id : ℕ
  pub value : ℕ
  pub valid_from : ℕ
  pub valid_until : Option ℕ
  pub observed_at : ℕ
  pub authority : ℕ
  pub confidence : ℕ

-- What the explanation text is made of.
pub record Reason : Type 0 where
  pub source_id : ℕ
  pub observed_at : ℕ
  pub valid_from : ℕ

-- `valid_until is not None and observed_at >= valid_until`
abbrev pub observed_after_end : Option ℕ → ℕ → Bool
observed_after_end none observed = false
observed_after_end (some u) observed = leb u observed

unfoldable pub value_conflict : VersionFacts → VersionFacts → Option Reason
value_conflict previous new =
    if previous.source_id == new.source_id || previous.value == new.value
    then none
    else if observed_after_end previous.valid_until previous.observed_at
    then none
    else if ltb previous.observed_at new.valid_from
    then none
    else some (record {
      source_id = previous.source_id;
      observed_at = previous.observed_at;
      valid_from = new.valid_from;
    })

-- The order of the tuples (authority, confidence, observed_at).
abbrev pub key_lt : VersionFacts → VersionFacts → Bool
key_lt a b =
    ltb a.authority b.authority
    || a.authority == b.authority
      && (ltb a.confidence b.confidence
          || a.confidence == b.confidence && ltb a.observed_at b.observed_at)

-- `max` returns the first of two equals.
unfoldable pub preferred : VersionFacts → VersionFacts → ℕ
preferred a b = if key_lt a b then b.id else a.id

-- `_rule_view` of backend/app/services/facts.py.
abbrev pub rule_view : FactVersion → VersionFacts
rule_view v = record {
  id = v.id;
  source_id = v.source_id;
  value = v.value;
  valid_from = v.valid_from;
  valid_until = v.valid_until;
  observed_at = v.observed_at;
  authority = v.authority;
  confidence = v.confidence;
}

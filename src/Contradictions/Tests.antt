-- ===== src/Contradictions/Tests.antt =====
-- Runs and instances for backend/app/domain/contradictions.py.
use context_ledger.Base.{◌≡◌, ◌↔◌, ◌⊎◌, refl, none, some}
use context_ledger.Contradictions.{VersionFacts, Reason, value_conflict, preferred}
use context_ledger.Contradictions.Rules.{
  IsFlagged, value_conflict-IsFlagged, RanksBelow, preferred-RanksBelow,
}

-- The CRM observed a value at 12; billing reports another one, valid from 10.
abbrev crm : VersionFacts
crm = record {
  id = 1;
  source_id = 5;
  value = 1;
  valid_from = 3;
  valid_until = none;
  observed_at = 12;
  authority = 50;
  confidence = 900;
}

abbrev billing : VersionFacts
billing = record {
  id = 2;
  source_id = 6;
  value = 2;
  valid_from = 10;
  valid_until = none;
  observed_at = 13;
  authority = 50;
  confidence = 950;
}

abbrev reason : Reason
reason = record { source_id = 5; observed_at = 12; valid_from = 10 }

flagged : value_conflict crm billing ≡ some reason
unfolding value_conflict
flagged = refl

-- An update from after the last observation is no contradiction.
ordinary_update : value_conflict crm (record billing { valid_from = 13 }) ≡ none
unfolding value_conflict
ordinary_update = refl

value_conflict-IsFlagged_example :
    (value_conflict crm billing ≡ some reason) ↔ (IsFlagged crm billing × (reason ≡ reason))
value_conflict-IsFlagged_example = value_conflict-IsFlagged crm billing reason

-- The new version has ended when the previous source observed its value.
flagged_past_end : value_conflict crm (record billing { valid_until = some 11 }) ≡ some reason
unfolding value_conflict
flagged_past_end = refl

preferred-RanksBelow_example :
    (RanksBelow crm billing
      × (preferred crm billing ≡ billing.id)
      × (preferred billing crm ≡ billing.id))
    ⊎ (RanksBelow billing crm × (preferred crm billing ≡ crm.id) × (preferred billing crm ≡ crm.id))
    ⊎ ((crm.authority ≡ billing.authority)
        × (crm.confidence ≡ billing.confidence)
        × (crm.observed_at ≡ billing.observed_at)
        × (preferred crm billing ≡ crm.id)
        × (preferred billing crm ≡ billing.id))
preferred-RanksBelow_example = preferred-RanksBelow crm billing

-- ===== src/Tests/Outcomes.antt =====
-- The outcome theorems at a drifted projection.
use streaming_system_compass.Base.{true, false, none, some, ◌≡◌, ◌↔◌, refl}
use streaming_system_compass.Base.Dict.{lookup, empty, lookup-empty}
use streaming_system_compass.Base.Result.{ok}
use streaming_system_compass.Outcome.{
  SemanticBoundary, SemanticOutcome, SemanticOutcomeCategory, SemanticOutcomeCode, SemanticSeverity,
  SemanticRiskLevel, SemanticReversibility, text,
}
use streaming_system_compass.Outcome.Technical.{
  RuntimeTechnicalStatusMapping, mapping_for_status, entry_of,
}
use streaming_system_compass.Outcome.Technical.Coherence.{IsCoherent, mapping_for_status-IsCoherent}
use streaming_system_compass.Outcome.ReadSide.{map_replay_validation_result, status_value}
use streaming_system_compass.Outcome.ReadSide.Meaning.{map_replay_validation_result-ok}
use streaming_system_compass.Projection.Validator.{ReplayValidationResult, match, drift}

abbrev drifted : ReplayValidationResult
drifted = record { order_id = "o1"; status = drift; expected_state = none; persisted_state = none }

abbrev staleness : RuntimeTechnicalStatusMapping
staleness = record {
  is_ok = false;
  category = SemanticOutcomeCategory.concurrency_uncertain;
  semantic_code = SemanticOutcomeCode.concurrency_uncertain;
  severity = SemanticSeverity.warning;
  risk_level = SemanticRiskLevel.medium;
  reversibility = SemanticReversibility.reversible;
}

staleness_mapped : mapping_for_status "CONCURRENT_STATE_STALENESS" ≡ ok staleness
unfolding mapping_for_status entry_of
staleness_mapped = refl

mapping_for_status-IsCoherent_example : IsCoherent staleness
mapping_for_status-IsCoherent_example =
    mapping_for_status-IsCoherent "CONCURRENT_STATE_STALENESS" staleness staleness_mapped

map_replay_validation_result-ok_example :
    (o : SemanticOutcome) × (map_replay_validation_result "u1" drifted none empty empty ≡ ok o)
    × ((o.is_ok ≡ true) ↔ (drift ≡ match))
    × (o.boundary ≡ SemanticBoundary.layer_2_read_side)
    × (lookup "order_id" o.context ≡ some (text "o1"))
    × (lookup "technical_status" o.evidence ≡ some (text (status_value drift)))
map_replay_validation_result-ok_example =
    map_replay_validation_result-ok "u1" drifted none empty empty (lookup-empty "order_id")
      (lookup-empty "technical_status")

-- ===== src/Outcome/Technical.antt =====
-- src/compass/runtime/technical_status_mapping.py: from technical statuses to semantic outcomes.
pub mod Coherence
use streaming_system_compass.Base.{
  ℕ, Bool, true, false, not, String, str_eq, ◌==◌, Option, none, some, List, [], ◌∷◌, if◌then◌else◌,
}
use streaming_system_compass.Base.Dict.{lookup, insert}
use streaming_system_compass.Base.Text.{is_blank}
use streaming_system_compass.Base.Result.{Result, ok, err, ◌>>=◌, ◌>>◌, raise_if}
use streaming_system_compass.Failure.{Failure, unsupported_status, blank_status, status_conflict}
use streaming_system_compass.Outcome.{
  SemanticOutcomeCategory, SemanticOutcomeCode, SemanticBoundary, SemanticSeverity,
  SemanticRiskLevel, SemanticReversibility, Value, text, flag, number, null, Mapping,
  SemanticOutcome, semantic_outcome,
}

pub record RuntimeTechnicalStatusMapping : Type 0 where
  pub is_ok : Bool
  pub category : SemanticOutcomeCategory
  pub semantic_code : SemanticOutcomeCode
  pub severity : SemanticSeverity
  pub risk_level : SemanticRiskLevel
  pub reversibility : SemanticReversibility

abbrev rule :
    Bool
    → SemanticOutcomeCategory
    → SemanticOutcomeCode
    → SemanticSeverity
    → SemanticRiskLevel
    → SemanticReversibility
    → RuntimeTechnicalStatusMapping
rule is_ok category semantic_code severity risk_level reversibility = record {
  is_ok = is_ok;
  category = category;
  semantic_code = semantic_code;
  severity = severity;
  risk_level = risk_level;
  reversibility = reversibility;
}

-- `_STATUS_MAPPINGS`
abbrev pub status_mappings : List (String × RuntimeTechnicalStatusMapping)
status_mappings =
    (
      "MATCH",
      rule true SemanticOutcomeCategory.valid SemanticOutcomeCode.semantically_valid
          SemanticSeverity.info SemanticRiskLevel.low SemanticReversibility.reversible,
    )
    ∷ (
      "RESOLVED_FROM_SNAPSHOT",
      rule true SemanticOutcomeCategory.valid SemanticOutcomeCode.semantically_valid
          SemanticSeverity.info SemanticRiskLevel.low SemanticReversibility.reversible,
    )
    ∷ (
      "MISSING_SNAPSHOT",
      rule false SemanticOutcomeCategory.fallback_required SemanticOutcomeCode.fast_path_unavailable
          SemanticSeverity.warning SemanticRiskLevel.medium SemanticReversibility.reversible,
    )
    ∷ (
      "MISSING_PROJECTION",
      rule false SemanticOutcomeCategory.rebuild_required SemanticOutcomeCode.requires_rebuild
          SemanticSeverity.warning SemanticRiskLevel.medium SemanticReversibility.rebuildable,
    )
    ∷ (
      "NO_ACCEPTED_HISTORY",
      rule false SemanticOutcomeCategory.unresolved SemanticOutcomeCode.runtime_unresolved
          SemanticSeverity.warning SemanticRiskLevel.unknown SemanticReversibility.unknown,
    )
    ∷ (
      "NO_ACCEPTED_HISTORY_FOR_ORDER",
      rule false SemanticOutcomeCategory.unresolved SemanticOutcomeCode.runtime_unresolved
          SemanticSeverity.warning SemanticRiskLevel.unknown SemanticReversibility.unknown,
    )
    ∷ (
      "INVALID_SNAPSHOT_BOUNDARY",
      rule false SemanticOutcomeCategory.untrusted SemanticOutcomeCode.derived_state_untrusted
          SemanticSeverity.error SemanticRiskLevel.high SemanticReversibility.rebuildable,
    )
    ∷ (
      "INVALID_SNAPSHOT_PRECONDITION",
      rule false SemanticOutcomeCategory.untrusted SemanticOutcomeCode.derived_state_untrusted
          SemanticSeverity.error SemanticRiskLevel.high SemanticReversibility.rebuildable,
    )
    ∷ (
      "INVALID_SNAPSHOT_COMPATIBILITY",
      rule false SemanticOutcomeCategory.untrusted SemanticOutcomeCode.derived_state_untrusted
          SemanticSeverity.error SemanticRiskLevel.high SemanticReversibility.rebuildable,
    )
    ∷ (
      "TAIL_EVENT_SOURCE_CONTRACT_VIOLATION",
      rule false SemanticOutcomeCategory.unresolved SemanticOutcomeCode.runtime_unresolved
          SemanticSeverity.error SemanticRiskLevel.high SemanticReversibility.unknown,
    )
    ∷ (
      "TAIL_REPLAY_FAILED",
      rule false SemanticOutcomeCategory.fallback_required SemanticOutcomeCode.fast_path_unavailable
          SemanticSeverity.warning SemanticRiskLevel.medium SemanticReversibility.reversible,
    )
    ∷ (
      "DRIFT",
      rule false SemanticOutcomeCategory.drift SemanticOutcomeCode.drift_detected
          SemanticSeverity.error SemanticRiskLevel.high SemanticReversibility.rebuildable,
    )
    ∷ (
      "SNAPSHOT_ASSISTED_DRIFT",
      rule false SemanticOutcomeCategory.drift SemanticOutcomeCode.drift_detected
          SemanticSeverity.error SemanticRiskLevel.high SemanticReversibility.rebuildable,
    )
    ∷ (
      "WRITE_SIDE_ACCEPTED",
      rule true SemanticOutcomeCategory.valid SemanticOutcomeCode.semantically_valid
          SemanticSeverity.info SemanticRiskLevel.low SemanticReversibility.reversible,
    )
    ∷ (
      "COMPASS_VALIDATION_BLOCKED",
      rule false SemanticOutcomeCategory.block_required
          SemanticOutcomeCode.semantic_conflict_detected SemanticSeverity.error
          SemanticRiskLevel.high SemanticReversibility.unknown,
    )
    ∷ (
      "CONCURRENT_STATE_STALENESS",
      rule false SemanticOutcomeCategory.concurrency_uncertain
          SemanticOutcomeCode.concurrency_uncertain SemanticSeverity.warning
          SemanticRiskLevel.medium SemanticReversibility.reversible,
    )
    ∷ (
      "WRITE_SIDE_INFRASTRUCTURE_ERROR",
      rule false SemanticOutcomeCategory.escalation_required
          SemanticOutcomeCode.requires_operator_review SemanticSeverity.error SemanticRiskLevel.high
          SemanticReversibility.unknown,
    )
    ∷ (
      "OCC_CONFLICT_AFTER_VALIDATION",
      rule false SemanticOutcomeCategory.concurrency_uncertain
          SemanticOutcomeCode.concurrency_uncertain SemanticSeverity.warning
          SemanticRiskLevel.medium SemanticReversibility.reversible,
    )
    ∷ (
      "LOCK_TIMEOUT",
      rule false SemanticOutcomeCategory.concurrency_uncertain
          SemanticOutcomeCode.concurrency_uncertain SemanticSeverity.warning
          SemanticRiskLevel.medium SemanticReversibility.reversible,
    )
    ∷ (
      "IDEMPOTENT_REPLAY",
      rule true SemanticOutcomeCategory.retry_classified
          SemanticOutcomeCode.idempotent_replay_allowed SemanticSeverity.info SemanticRiskLevel.low
          SemanticReversibility.reversible,
    )
    ∷ (
      "IDEMPOTENCY_CONFLICT",
      rule false SemanticOutcomeCategory.block_required
          SemanticOutcomeCode.semantic_conflict_detected SemanticSeverity.error
          SemanticRiskLevel.high SemanticReversibility.unknown,
    )
    ∷ []

unfoldable pub entry_of :
    String
    → List (String × RuntimeTechnicalStatusMapping)
    → Result Failure RuntimeTechnicalStatusMapping
entry_of status [] = err unsupported_status
entry_of status ((s, m) ∷ rest) =
    let later = entry_of status rest in if str_eq s status then ok m else later

-- `_mapping_for_status`
unfoldable pub mapping_for_status : String → Result Failure RuntimeTechnicalStatusMapping
unfolding entry_of
mapping_for_status status = entry_of status status_mappings

-- The test of a status that the evidence has already: None counts as none.
disagrees : String → Option Value → Bool
disagrees status none = false
disagrees status (some (text s)) = not (str_eq s status)
disagrees status (some null) = false
disagrees status (some v) = true

-- `_merge_technical_status_into_evidence`
unfoldable pub merge_technical_status_into_evidence : String → Mapping → Result Failure Mapping
unfolding disagrees
merge_technical_status_into_evidence status evidence = do
  raise_if (disagrees status (lookup "technical_status" evidence)) status_conflict
  ok (insert "technical_status" (text status) evidence)

-- `map_runtime_technical_status`
unfoldable pub map_runtime_technical_status :
    String → String → SemanticBoundary → String → Mapping → Mapping → Result Failure SemanticOutcome
unfolding mapping_for_status merge_technical_status_into_evidence semantic_outcome
map_runtime_technical_status outcome_id status boundary reason context evidence = do
  raise_if (is_blank status) blank_status
  m ← mapping_for_status status
  merged ← merge_technical_status_into_evidence status evidence
  semantic_outcome (record {
    outcome_id = outcome_id;
    is_ok = m.is_ok;
    boundary = boundary;
    category = m.category;
    semantic_code = m.semantic_code;
    severity = m.severity;
    risk_level = m.risk_level;
    reversibility = m.reversibility;
    reason = reason;
    context = context;
    evidence = merged;
  })

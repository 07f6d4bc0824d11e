-- ===== src/Governance/Decision.antt =====
-- src/compass/runtime: write_side_rule_feedback.py, runtime_decision.py and
-- write_side_runtime_decision.py.
use streaming_system_compass.Base.{Bool, true, false, not, ◌&&◌, String, Option, none, some, []}
use streaming_system_compass.Base.Result.{Result, ok, err, ◌>>=◌, ◌>>◌, raise_if}
use streaming_system_compass.Failure.{Failure, missing_rule_evidence, decision_refused}
use streaming_system_compass.Order.Contract.{OrderRuleViolationEvidence}
use streaming_system_compass.Outcome.{
  SemanticBoundary, SemanticOutcomeCategory, SemanticOutcomeCode, SemanticOutcome,
}
use streaming_system_compass.Postgres.Delivery.{
  PostgresWriteSideOutcome, validation_blocked, PostgresWriteSideResult, observed_rule_violation,
}
use streaming_system_compass.Governance.WriteSideOutcome.{Reasons, is_none}
use streaming_system_compass.Governance.OutcomeMapping.{map_write_side_result}

-- `PostgresWriteSideSemanticRuleFeedback`
pub record Feedback : Type 0 where
  pub semantic_outcome : SemanticOutcome
  pub rule_refinement : Option OrderRuleViolationEvidence

unfoldable pub required :
    Option OrderRuleViolationEvidence → Result Failure (Option OrderRuleViolationEvidence)
required none = err missing_rule_evidence
required (some v) = ok (some v)

unfoldable pub refinement_for :
    PostgresWriteSideOutcome
    → PostgresWriteSideResult
    → Result Failure (Option OrderRuleViolationEvidence)
unfolding required observed_rule_violation
refinement_for validation_blocked result = required (observed_rule_violation result)
refinement_for _ result = ok none

-- `_from_source`
unfoldable pub feedback_from_source :
    SemanticOutcome → PostgresWriteSideResult → Result Failure Feedback
unfolding refinement_for
feedback_from_source outcome result = do
  refinement ← refinement_for result.outcome result
  ok (record { semantic_outcome = outcome; rule_refinement = refinement })

-- `map_postgres_write_side_result_to_semantic_rule_feedback`
unfoldable pub map_to_feedback :
    String → PostgresWriteSideResult → Reasons → Result Failure Feedback
map_to_feedback outcome_id result reasons = do
  outcome ← map_write_side_result outcome_id result reasons [] []
  feedback_from_source outcome result

pub data RuntimeDecisionResponse : Type 0 where
  use_current_result return_prior_accepted_result : RuntimeDecisionResponse
  block_current_continuation require_escalation : RuntimeDecisionResponse

-- The explanation text is determined by the response and the refinement and left out.
pub record RuntimeDecision : Type 0 where
  pub response : RuntimeDecisionResponse
  pub semantic_outcome : SemanticOutcome

-- `PostgresWriteSideRuntimeDecisionEvaluation`
pub record Evaluation : Type 0 where
  pub decision : RuntimeDecision
  pub source_feedback : Feedback

-- `_SUPPORTED_RESPONSES.get(…)`
unfoldable pub supported_response :
    SemanticBoundary
    → SemanticOutcomeCategory
    → SemanticOutcomeCode
    → Option RuntimeDecisionResponse
supported_response SemanticBoundary.layer_1_write_side SemanticOutcomeCategory.valid
      SemanticOutcomeCode.semantically_valid =
    some use_current_result
supported_response SemanticBoundary.layer_1_write_side SemanticOutcomeCategory.retry_classified
      SemanticOutcomeCode.idempotent_replay_allowed =
    some return_prior_accepted_result
supported_response SemanticBoundary.layer_1_write_side SemanticOutcomeCategory.block_required
      SemanticOutcomeCode.semantic_conflict_detected =
    some block_current_continuation
supported_response SemanticBoundary.layer_1_write_side SemanticOutcomeCategory.escalation_required
      SemanticOutcomeCode.requires_operator_review =
    some require_escalation
supported_response _ _ _ = none

unfoldable pub is_block : RuntimeDecisionResponse → Bool
is_block block_current_continuation = true
is_block _ = false

unfoldable pub decide_response :
    Option RuntimeDecisionResponse → Feedback → Result Failure Evaluation
unfolding is_block
decide_response none feedback = err decision_refused
decide_response (some response) feedback = do
  raise_if (not (is_none feedback.rule_refinement) && not (is_block response)) decision_refused
  ok (record {
    decision = record { response = response; semantic_outcome = feedback.semantic_outcome };
    source_feedback = feedback;
  })

-- `evaluate_postgres_write_side_runtime_decision`
unfoldable pub evaluate_runtime_decision : Feedback → Result Failure Evaluation
unfolding decide_response supported_response
evaluate_runtime_decision feedback =
    decide_response
      (supported_response feedback.semantic_outcome.boundary feedback.semantic_outcome.category
        feedback.semantic_outcome.semantic_code)
      feedback

-- ===== src/Governance/Agreement.antt =====
-- src/compass/runtime: how the semantic mapping, the runtime decision and the reinvocation authority
-- of one write-side result agree.
use streaming_system_compass.Base.{
  Bool, true, false, Bool-cases, String, Option, none, some, List, [], ◌≡◌, refl, ◌⊎◌, inl, inr,
}
use streaming_system_compass.Base.Result.{
  Result, ok, err, raise_if, Ensures, bind-Ensures, value-Ensures, extract-Ensures,
}
use streaming_system_compass.Order.Contract.{OrderRuleViolationEvidence}
use streaming_system_compass.Failure.{Failure}
use streaming_system_compass.Base.Text.{is_blank}
use streaming_system_compass.Admission.{
  AdmissionVerdict, admitted, stale_write, lock_timeout, infrastructure_error,
}
use streaming_system_compass.Outcome.{
  SemanticBoundary, SemanticOutcomeCategory, SemanticOutcomeCode, SemanticOutcome, Mapping,
  semantic_outcome,
}
use streaming_system_compass.Outcome.Technical.{
  RuntimeTechnicalStatusMapping, mapping_for_status, entry_of, map_runtime_technical_status,
  merge_technical_status_into_evidence,
}
use streaming_system_compass.Postgres.Delivery.{
  PostgresWriteSideOutcome, accepted, replay, conflict, validation_blocked, admission_rejected,
  PostgresWriteSideResult, observed_rule_violation,
}
use streaming_system_compass.Governance.WriteSideOutcome.{
  Reasons, is_none, admission_rejection_source, status_of_verdict, status_by_outcome,
  technical_status_of_result, validate_result_shape,
}
use streaming_system_compass.Governance.OutcomeMapping.{
  map_admission_status, context_from_result, merge_caller_context, map_write_side_result, update,
  evidence_from_result,
}
use streaming_system_compass.Governance.Decision.{
  Feedback, refinement_for, required, feedback_from_source, map_to_feedback,
  RuntimeDecisionResponse, use_current_result, return_prior_accepted_result,
  block_current_continuation, require_escalation, Evaluation, supported_response, decide_response,
  is_block, evaluate_runtime_decision,
}
use streaming_system_compass.Base.Result
use streaming_system_compass.Outcome

-- The response that the profile has for a terminal outcome, and for what rejected an admission.
unfoldable pub rejection_response : Result Failure AdmissionVerdict → Option RuntimeDecisionResponse
rejection_response (ok infrastructure_error) = some require_escalation
rejection_response _ = none

unfoldable pub outcome_response :
    PostgresWriteSideOutcome → Result Failure AdmissionVerdict → Option RuntimeDecisionResponse
unfolding rejection_response
outcome_response accepted v = some use_current_result
outcome_response replay v = some return_prior_accepted_result
outcome_response conflict v = some block_current_continuation
outcome_response validation_blocked v = some block_current_continuation
outcome_response admission_rejected v = rejection_response v

unfoldable pub expected_response : PostgresWriteSideResult → Option RuntimeDecisionResponse
unfolding outcome_response
expected_response r = outcome_response r.outcome (admission_rejection_source r)

-- The response of an evaluation, or none where it is refused.
unfoldable pub response_of : Result Failure Evaluation → Option RuntimeDecisionResponse
response_of (ok e) = some e.decision.response
response_of (err e) = none

-- A semantic outcome that the table gives this response.
abbrev Answers : Option RuntimeDecisionResponse → SemanticOutcome → Type 0
Answers response o = supported_response o.boundary o.category o.semantic_code ≡ response

-- A technical status whose entry the table gives this response.
abbrev Leads : Option RuntimeDecisionResponse → String → Type 0
Leads response status =
    (m : RuntimeTechnicalStatusMapping) × (mapping_for_status status ≡ ok m)
    × (supported_response SemanticBoundary.layer_1_write_side m.category m.semantic_code ≡ response)

rejected-Leads :
    (v : Result Failure AdmissionVerdict)
    → Ensures (Leads (rejection_response v)) (Result.◌>>=◌ v status_of_verdict)
unfolding Ensures rejection_response status_of_verdict mapping_for_status entry_of
    supported_response
rejected-Leads (err e) = tt
rejected-Leads (ok admitted) = tt
rejected-Leads (ok stale_write) = (_, refl, refl)
rejected-Leads (ok lock_timeout) = (_, refl, refl)
rejected-Leads (ok infrastructure_error) = (_, refl, refl)

status-Leads :
    (o : PostgresWriteSideOutcome) (r : PostgresWriteSideResult)
    → Ensures (Leads (outcome_response o (admission_rejection_source r))) (status_by_outcome o r)
unfolding Ensures outcome_response status_by_outcome mapping_for_status entry_of supported_response
status-Leads accepted r = (_, refl, refl)
status-Leads replay r = (_, refl, refl)
status-Leads conflict r = (_, refl, refl)
status-Leads validation_blocked r = (_, refl, refl)
status-Leads admission_rejected r = rejected-Leads (admission_rejection_source r)

raise_if-Ensures :
    {A : Type 0} (Q : A → Type 0) (b : Bool) (e : Failure) (k : Result Failure A)
    → (b ≡ false → Ensures Q k)
    → Ensures Q (Result.◌>>◌ (raise_if b e) k)
unfolding Ensures
raise_if-Ensures Q true e k h = tt
raise_if-Ensures Q false e k h = h refl

-- Its constructor keeps the kind.
outcome-Answers :
    (response : Option RuntimeDecisionResponse) (o : SemanticOutcome)
    → Answers response o
    → Ensures (Answers response) (semantic_outcome o)
unfolding semantic_outcome Ensures
outcome-Answers response o h = elim (Bool-cases (is_blank o.reason)) [
  | inl b ↦ rw b tt
  | inr b ↦ rw b h
]

-- The outcome of a technical status has the boundary given and the kind of the status's entry.
mapped-Answers :
    (response : Option RuntimeDecisionResponse) (outcome_id status reason : String)
    (context evidence : Mapping)
    → Leads response status
    → Ensures (Answers response) (
        map_runtime_technical_status outcome_id status SemanticBoundary.layer_1_write_side reason
          context evidence)
unfolding map_runtime_technical_status
mapped-Answers response outcome_id status reason context evidence (m, e, h) =
    raise_if-Ensures _ (is_blank status) _ _ λ _. rw e (
      bind-Ensures _ (merge_technical_status_into_evidence status evidence) _
        (value-Ensures (merge_technical_status_into_evidence status evidence))
        λ merged _. outcome-Answers response _ h)

map_write_side_result-Answers :
    (outcome_id : String) (r : PostgresWriteSideResult) (reasons : Reasons)
    (context evidence : List (String × Outcome.Value))
    → Ensures
        (Answers (expected_response r))
        (map_write_side_result outcome_id r reasons context evidence)
unfolding map_write_side_result technical_status_of_result expected_response map_admission_status
map_write_side_result-Answers outcome_id r reasons context evidence =
    bind-Ensures _ (validate_result_shape r) _ (value-Ensures (validate_result_shape r)) λ _ _.
      bind-Ensures _ (status_by_outcome r.outcome r) _ (status-Leads r.outcome r) λ status leads.
        bind-Ensures _ (context_from_result r) _ (value-Ensures (context_from_result r)) λ own _.
          bind-Ensures _ (merge_caller_context own context) _
            (value-Ensures (merge_caller_context own context))
            λ merged _.
              mapped-Answers (expected_response r) outcome_id status _ merged
                (update (evidence_from_result r reasons) evidence) leads

-- A refinement is there only where the response is a block.
abbrev Refined : Option RuntimeDecisionResponse → Feedback → Type 0
Refined response f =
    Answers response f.semantic_outcome
    × ((is_none f.rule_refinement ≡ true) ⊎ (response ≡ some block_current_continuation))

refinement-Refined :
    (o : PostgresWriteSideOutcome) (r : PostgresWriteSideResult)
    → Ensures
        (λ v.
          (is_none v ≡ true)
          ⊎ (outcome_response o (admission_rejection_source r) ≡ some block_current_continuation))
        (refinement_for o r)
unfolding Ensures refinement_for outcome_response
refinement-Refined accepted r = inl refl
refinement-Refined replay r = inl refl
refinement-Refined conflict r = inl refl
refinement-Refined admission_rejected r = inl refl
refinement-Refined validation_blocked r = blocked-Refined (required (observed_rule_violation r))
  where
    blocked-Refined :
        (v : Result Failure (Option OrderRuleViolationEvidence))
        → Ensures
            (λ v.
              (is_none v ≡ true)
              ⊎ (some block_current_continuation ≡ some block_current_continuation))
            v
    blocked-Refined (ok v) = inr refl
    blocked-Refined (err e) = tt

feedback-Refined :
    (outcome_id : String) (r : PostgresWriteSideResult) (reasons : Reasons)
    → Ensures (Refined (expected_response r)) (map_to_feedback outcome_id r reasons)
unfolding map_to_feedback feedback_from_source expected_response Ensures
feedback-Refined outcome_id r reasons =
    bind-Ensures _ (map_write_side_result outcome_id r reasons [] []) _
      (map_write_side_result-Answers outcome_id r reasons [] [])
      λ o answers.
        bind-Ensures _ (refinement_for r.outcome r) _ (refinement-Refined r.outcome r)
          λ v h. (answers, h)

decided :
    (response : Option RuntimeDecisionResponse) (f : Feedback)
    → (is_none f.rule_refinement ≡ true) ⊎ (response ≡ some block_current_continuation)
    → response_of (decide_response response f) ≡ response
unfolding response_of decide_response is_block
decided none f h = refl
decided (some use_current_result) f (inl e) = rw e refl
decided (some return_prior_accepted_result) f (inl e) = rw e refl
decided (some require_escalation) f (inl e) = rw e refl
decided (some block_current_continuation) f h = elim (Bool-cases (is_none f.rule_refinement)) [
  | inl e ↦ rw e refl
  | inr e ↦ rw e refl
]
decided (some use_current_result) f (inr e) = absurd (cc e)
decided (some return_prior_accepted_result) f (inr e) = absurd (cc e)
decided (some require_escalation) f (inr e) = absurd (cc e)

-- Where a result maps to feedback, the runtime decision is determined by its terminal outcome: an
-- accepted result is used, a replay returns the prior event, a conflict and a validation block both
-- block, a rejected admission is escalated if the infrastructure failed and refused otherwise. The
-- refusal of an incoherent refinement never happens.
pub evaluate_runtime_decision-determined :
    (outcome_id : String) (r : PostgresWriteSideResult) (reasons : Reasons) (f : Feedback)
    → map_to_feedback outcome_id r reasons ≡ ok f
    → response_of (evaluate_runtime_decision f) ≡ expected_response r
unfolding evaluate_runtime_decision
evaluate_runtime_decision-determined outcome_id r reasons f e =
    let (answers, h) = extract-Ensures _ _ f e (feedback-Refined outcome_id r reasons) in
    rw answers (decided (expected_response r) f h)

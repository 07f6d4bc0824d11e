-- ===== src/Transition/Evidence.antt =====
-- src/compass/transition/rule_evaluation_evidence.py, and the evidence view of the full-proof validator.
pub mod Coherence
use streaming_system_compass.Base.{ℕ, Bool, true, false, Option, none, some, String, not, str_eq}
use streaming_system_compass.Base.Text.{is_blank}
use streaming_system_compass.Base.Result.{Result, ok, err, ◌>>=◌, ◌>>◌, raise_if}
use streaming_system_compass.Failure.{Failure, incoherent_evidence}
use streaming_system_compass.Order.{OrderEvent}
use streaming_system_compass.Order.Contract.{
  OrderCorrectnessRuleId, OrderRuleViolationEvidence, rule_violation_evidence, contract_id,
  contract_version, transition_sequence_matches_accepted_next_version,
  transition_proof_prev_event_id_matches_accepted, transition_proof_prev_version_matches_accepted,
  transition_proof_prev_status_matches_accepted, transition_candidate_event_type_supported,
  transition_event_type_legal_from_accepted_status,
}
use streaming_system_compass.Transition.{
  ValidationResult, ValidationContext, ValidationVerdict, passed, failed, skipped,
  validate_branches,
}

-- `rule_id in FULL_PROOF_SUPPORTED_RULE_IDS`
unfoldable pub is_supported : OrderCorrectnessRuleId → Bool
is_supported transition_sequence_matches_accepted_next_version = true
is_supported transition_proof_prev_event_id_matches_accepted = true
is_supported transition_proof_prev_version_matches_accepted = true
is_supported transition_proof_prev_status_matches_accepted = true
is_supported transition_candidate_event_type_supported = true
is_supported transition_event_type_legal_from_accepted_status = true
is_supported _ = false

pub record FullProofValidationEvidence : Type 0 where
  pub validation_result : ValidationResult
  pub observed_violation : Option OrderRuleViolationEvidence

-- The checks of `__post_init__` behind the identity check, by verdict and presence of a violation.
check_coherence :
    ValidationVerdict
    → ValidationResult
    → Option OrderRuleViolationEvidence
    → Result Failure (Unit {0})
check_coherence passed r none = ok tt
check_coherence passed r (some v) = err incoherent_evidence
check_coherence skipped r o = err incoherent_evidence
check_coherence failed r none = err incoherent_evidence
check_coherence failed r (some v) = do
  raise_if (not (is_supported v.rule_id)) incoherent_evidence
  raise_if (not (str_eq v.candidate_event_id r.candidate_event_id)) incoherent_evidence

-- `FullProofValidationEvidence(...)`
unfoldable pub full_proof_evidence :
    ValidationResult
    → Option OrderRuleViolationEvidence
    → Result Failure FullProofValidationEvidence
unfolding check_coherence is_supported
full_proof_evidence r o = do
  raise_if (is_blank r.candidate_event_id) incoherent_evidence
  check_coherence r.verdict r o
  ok (record { validation_result = r; observed_violation = o })

observe :
    String → Option OrderCorrectnessRuleId → Result Failure (Option OrderRuleViolationEvidence)
observe candidate none = ok none
observe candidate (some rule) = do
  v ← rule_violation_evidence contract_id contract_version rule candidate
  ok (some v)

-- `FullProofValidator.validate_with_rule_evidence`
unfoldable pub validate_with_rule_evidence :
    OrderEvent → ValidationContext → Result Failure FullProofValidationEvidence
unfolding observe full_proof_evidence rule_violation_evidence
validate_with_rule_evidence e ctx = do
  let (r, rule) = validate_branches e ctx
  o ← observe e.event_id rule
  full_proof_evidence r o

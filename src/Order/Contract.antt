-- ===== src/Order/Contract.antt =====
-- src/core/order/correctness_contract.py: the stable rule identities and the identity of the contract;
-- src/core/order/rule_violation_evidence.py: the record of one observed violation.
pub mod Rules
pub mod Equality
pub mod Edition
pub mod Registered
pub mod Parity
use streaming_system_compass.Base.{ℕ, String, not, str_eq, ◌==◌}
use streaming_system_compass.Base.Text.{is_blank}
use streaming_system_compass.Base.Result.{Result, ok, ◌>>◌, raise_if}
use streaming_system_compass.Failure.{Failure, incoherent_evidence}

pub data OrderCorrectnessRuleId : Type 0 where
  create_allowed_from_init pay_allowed_from_created : OrderCorrectnessRuleId
  create_normalized_amount_positive pay_normalized_amount_positive : OrderCorrectnessRuleId
  pay_normalized_amount_equals_total : OrderCorrectnessRuleId
  candidate_sequence_is_next_aggregate_version : OrderCorrectnessRuleId
  candidate_proof_derived_from_aggregate_predecessor : OrderCorrectnessRuleId
  trusted_application_event_order_id_matches_aggregate : OrderCorrectnessRuleId
  trusted_application_event_sequence_is_next_version : OrderCorrectnessRuleId
  trusted_application_created_establishes_state : OrderCorrectnessRuleId
  trusted_application_paid_establishes_state : OrderCorrectnessRuleId
  trusted_application_updates_aggregate_history_head : OrderCorrectnessRuleId
  transition_sequence_matches_accepted_next_version : OrderCorrectnessRuleId
  transition_proof_prev_event_id_matches_accepted : OrderCorrectnessRuleId
  transition_proof_prev_version_matches_accepted : OrderCorrectnessRuleId
  transition_proof_prev_status_matches_accepted : OrderCorrectnessRuleId
  transition_candidate_event_type_supported : OrderCorrectnessRuleId
  transition_event_type_legal_from_accepted_status : OrderCorrectnessRuleId

-- `ORDER_CORRECTNESS_CONTRACT_V0.contract_id` and `.contract_version`
abbrev pub contract_id : String
contract_id = "order.correctness"

abbrev pub contract_version : ℕ
contract_version = 0

pub record OrderRuleViolationEvidence : Type 0 where
  pub contract_id : String
  pub contract_version : ℕ
  pub rule_id : OrderCorrectnessRuleId
  pub candidate_event_id : String

-- The constructor with its `__post_init__`.
unfoldable pub rule_violation_evidence :
    String → ℕ → OrderCorrectnessRuleId → String → Result Failure OrderRuleViolationEvidence
rule_violation_evidence c v rule candidate = do
  raise_if (not (str_eq c contract_id)) incoherent_evidence
  raise_if (not (v == contract_version)) incoherent_evidence
  raise_if (is_blank candidate) incoherent_evidence
  ok (record {
    contract_id = c;
    contract_version = v;
    rule_id = rule;
    candidate_event_id = candidate;
  })

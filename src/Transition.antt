-- ===== src/Transition.antt =====
-- src/compass/transition: what validators report, and the two validators.
pub mod Evidence
pub mod Runtime
pub mod Soundness
use streaming_system_compass.Base.{
  ℕ, ◌+◌, Bool, true, false, Option, none, some, String, not, ◌==◌, if◌then◌else◌,
}
use streaming_system_compass.Order.{EventType, OrderStatus, status_eq, optional_eq, OrderEvent}
use streaming_system_compass.Order.History.{event_id_of}
use streaming_system_compass.Order.Contract.{
  OrderCorrectnessRuleId, transition_sequence_matches_accepted_next_version,
  transition_proof_prev_event_id_matches_accepted, transition_proof_prev_version_matches_accepted,
  transition_proof_prev_status_matches_accepted, transition_candidate_event_type_supported,
  transition_event_type_legal_from_accepted_status,
}

-- src/compass/transition/types.py
pub data ValidationMode : Type 0 where
  strict off : ValidationMode

pub data ValidationVerdict : Type 0 where
  passed failed skipped : ValidationVerdict

pub data EnforcementAction : Type 0 where
  allow block : EnforcementAction

-- The reason texts, with the values that they interpolate.
pub data Reason : Type 0 where
  skipped_off : Reason
  sequence_violation : ℕ → ℕ → Reason
  predecessor_mismatch version_mismatch status_mismatch : Reason
  unsupported_event_type : EventType → Reason
  invalid_transition : EventType → OrderStatus → OrderStatus → Reason
  passed_full_proof : Reason

pub record ValidationResult : Type 0 where
  pub verdict : ValidationVerdict
  pub reason : Reason
  pub candidate_event_id : String
  pub validator_name : String
  pub validation_mode : ValidationMode

pub record ValidationDecision : Type 0 where
  pub action : EnforcementAction
  pub validation_result : ValidationResult

pub record ValidationContext : Type 0 where
  pub actual_prev_event : Option OrderEvent
  pub actual_prev_version : ℕ
  pub actual_prev_status : OrderStatus

-- `NoOpValidator.validate`
unfoldable pub no_op_validate : OrderEvent → ValidationContext → ValidationResult
no_op_validate e ctx = record {
  verdict = skipped;
  reason = skipped_off;
  candidate_event_id = e.event_id;
  validator_name = "NoOpValidator";
  validation_mode = off;
}

-- `REQUIRED_PREV_STATUS_BY_EVENT_TYPE.get(event_type)`
unfoldable pub required_prev_status : EventType → Option OrderStatus
required_prev_status EventType.created = some OrderStatus.init
required_prev_status EventType.paid = some OrderStatus.created

full_proof_result : OrderEvent → ValidationVerdict → Reason → ValidationResult
full_proof_result e verdict reason = record {
  verdict = verdict;
  reason = reason;
  candidate_event_id = e.event_id;
  validator_name = "FullProofValidator";
  validation_mode = strict;
}

-- The last two branches, on the status that the event type requires.
legality_branch :
    OrderEvent
    → ValidationContext
    → Option OrderStatus
    → ValidationResult × Option OrderCorrectnessRuleId
unfolding full_proof_result
legality_branch e ctx none = (
  full_proof_result e failed (unsupported_event_type e.event_type),
  some transition_candidate_event_type_supported,
)
legality_branch e ctx (some required) =
    if not (status_eq ctx.actual_prev_status required)
    then (
      full_proof_result e failed (invalid_transition e.event_type required ctx.actual_prev_status),
      some transition_event_type_legal_from_accepted_status,
    )
    else (full_proof_result e passed passed_full_proof, none)

-- `FullProofValidator._validate`: the result and the rule of the branch that failed.
unfoldable pub validate_branches :
    OrderEvent → ValidationContext → ValidationResult × Option OrderCorrectnessRuleId
unfolding legality_branch full_proof_result required_prev_status
validate_branches e ctx =
    if not (e.sequence == ctx.actual_prev_version + 1)
    then (
      full_proof_result e failed (sequence_violation e.sequence (ctx.actual_prev_version + 1)),
      some transition_sequence_matches_accepted_next_version,
    )
    else if not (optional_eq e.proof.prev_event_id (event_id_of ctx.actual_prev_event))
    then (
      full_proof_result e failed predecessor_mismatch,
      some transition_proof_prev_event_id_matches_accepted,
    )
    else if not (e.proof.prev_version == ctx.actual_prev_version)
    then (
      full_proof_result e failed version_mismatch,
      some transition_proof_prev_version_matches_accepted,
    )
    else if not (status_eq e.proof.prev_status ctx.actual_prev_status)
    then (
      full_proof_result e failed status_mismatch,
      some transition_proof_prev_status_matches_accepted,
    )
    else legality_branch e ctx (required_prev_status e.event_type)

-- `FullProofValidator.validate`
unfoldable pub full_proof_validate : OrderEvent → ValidationContext → ValidationResult
full_proof_validate e ctx = (validate_branches e ctx).0

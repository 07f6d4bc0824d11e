-- ===== src/Transition/Runtime.antt =====
-- src/compass/transition/runtime.py: the dispatcher, the policy and the runtime.
use streaming_system_compass.Base.{Option, none}
use streaming_system_compass.Base.Result.{Result, ok, ◌>>=◌}
use streaming_system_compass.Failure.{Failure}
use streaming_system_compass.Order.{OrderEvent}
use streaming_system_compass.Order.Contract.{OrderRuleViolationEvidence}
use streaming_system_compass.Transition.{
  ValidationMode, strict, off, ValidationVerdict, failed, EnforcementAction, allow, block,
  ValidationResult, ValidationDecision, ValidationContext, no_op_validate, full_proof_validate,
}
use streaming_system_compass.Transition.Evidence.{validate_with_rule_evidence}

-- A `TransitionValidator`: the two of the program, or any other that follows the protocol.
pub data Validator : Type 0 where
  full_proof no_op : Validator
  other : (OrderEvent → ValidationContext → ValidationResult) → Validator

unfoldable pub validate : Validator → OrderEvent → ValidationContext → ValidationResult
validate full_proof = full_proof_validate
validate no_op = no_op_validate
validate (other f) = f

pub record ValidationDispatcher : Type 0 where
  pub strict_validator : Validator
  pub off_validator : Validator

-- `ValidationDispatcher.select`
unfoldable pub select : ValidationDispatcher → ValidationMode → Validator
select d off = d.off_validator
select d strict = d.strict_validator

-- `ValidationPolicy.decide`, on the verdict of the result
unfoldable pub policy : ValidationVerdict → EnforcementAction
policy failed = block
policy _ = allow

pub record ValidationRuntime : Type 0 where
  pub dispatcher : ValidationDispatcher
  pub mode : ValidationMode

-- `ValidationRuntime.decide`
unfoldable pub decide : ValidationRuntime → OrderEvent → ValidationContext → ValidationDecision
unfolding policy validate select
decide runtime e ctx =
    let r = validate (select runtime.dispatcher runtime.mode) e ctx in
    record { action = policy r.verdict; validation_result = r }

pub record ValidationDecisionWithRuleEvidence : Type 0 where
  pub decision : ValidationDecision
  pub observed_violation : Option OrderRuleViolationEvidence

decide_by :
    Validator → OrderEvent → ValidationContext → Result Failure ValidationDecisionWithRuleEvidence
unfolding validate policy
decide_by full_proof e ctx = do
  evidence ← validate_with_rule_evidence e ctx
  ok (record {
    decision = record {
      action = policy evidence.validation_result.verdict;
      validation_result = evidence.validation_result;
    };
    observed_violation = evidence.observed_violation;
  })
decide_by v e ctx =
    let r = validate v e ctx in
    ok (record {
      decision = record { action = policy r.verdict; validation_result = r };
      observed_violation = none;
    })

-- `ValidationRuntime.decide_with_rule_evidence`
unfoldable pub decide_with_rule_evidence :
    ValidationRuntime
    → OrderEvent
    → ValidationContext
    → Result Failure ValidationDecisionWithRuleEvidence
unfolding decide_by select
decide_with_rule_evidence runtime e ctx = decide_by (select runtime.dispatcher runtime.mode) e ctx

-- The runtime that the composition root builds.
abbrev pub default_runtime : ValidationMode → ValidationRuntime
default_runtime mode = record {
  dispatcher = record { strict_validator = full_proof; off_validator = no_op };
  mode = mode;
}
